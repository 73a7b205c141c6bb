-- ===== src/External/Concrete.antt =====
-- Concrete functions in place of the external crates, at which the laws of the interfaces hold.
use coco_guest_components.Common.{
  ℕ, zero, suc, ◌+◌, ◌-◌, ◌*◌, ◌/◌, ◌%◌, ◌<◌, ◌≡◌, refl, ap, ◌↔◌, true, Option, none, some, List,
  [], ◌∷◌, ltb, leb, ◌&&◌, if◌then◌else◌, All, length, is_some, arith,
}
use coco_guest_components.Text.{Text, split_once}
use coco_guest_components.External.Oci.{OciClient, OciLaws}
use coco_guest_components.External.Hex.{Hex, HexLaws, IsHexDigit, IsByte}

abbrev pub replicate : ℕ → ℕ → List ℕ
replicate zero x = []
replicate (suc n) x = x ∷ replicate n x

-- `hex`
abbrev pub digit : ℕ → ℕ
digit n = if ltb n 10 then b'0' + n else b'a' + (n - 10)

abbrev pub hex_encode : List ℕ → Text
hex_encode [] = []
hex_encode (b ∷ bs) = digit (b / 16) ∷ digit (b % 16) ∷ hex_encode bs

abbrev pub digit_value : ℕ → Option ℕ
digit_value c =
    if leb b'0' c && leb c b'9'
    then some (c - b'0')
    else if leb b'a' c && leb c b'f'
    then some (c - b'a' + 10)
    else if leb b'A' c && leb c b'F'
    then some (c - b'A' + 10)
    else none

abbrev pub byte_of : Option ℕ → Option ℕ → Option (List ℕ) → Option (List ℕ)
byte_of (some h) (some l) (some bs) = some ((h * 16 + l) ∷ bs)
byte_of none _ _ = none
byte_of (some _) none _ = none
byte_of (some _) (some _) none = none

abbrev pub hex_decode : Text → Option (List ℕ)
hex_decode [] = some []
hex_decode (_ ∷ []) = none
hex_decode (h ∷ l ∷ t) = byte_of (digit_value h) (digit_value l) (hex_decode t)

abbrev pub hex : Hex
hex = record { encode = hex_encode; decode = hex_decode }

digit_value_iff : (c : ℕ) → (is_some (digit_value c) ≡ true) ↔ IsHexDigit c
digit_value_iff c = (λ h. ground arith, λ h. ground arith)

byte_of_iff :
    (h l : Option ℕ) (t : Option (List ℕ))
    → (is_some (byte_of h l t) ≡ true)
      ↔ ((is_some h ≡ true) × (is_some l ≡ true) × (is_some t ≡ true))
byte_of_iff h l t = (λ e. ground arith, λ e. ground arith)

hex_accepts : (t : Text) → (is_some (hex_decode t) ≡ true) ↔ ((length t % 2 ≡ 0) × All IsHexDigit t)
hex_accepts [] = (λ _. (omega arith, tt), λ _. refl)
hex_accepts (x ∷ []) = (λ h. cc, λ h. absurd (omega (arith, h.0)))
hex_accepts (h ∷ l ∷ t) =
    let (to, from) = hex_accepts t in
    let (split, unsplit) = byte_of_iff (digit_value h) (digit_value l) (hex_decode t) in
    (
      λ e.
          let (eh, el, et) = split e in
          let (even, digits) = to et in
          (omega (arith, even), ((digit_value_iff h).0 eh, ((digit_value_iff l).0 el, digits))),
      λ (even, (dh, (dl, digits))).
          unsplit (
            (digit_value_iff h).1 dh,
            (digit_value_iff l).1 dl,
            from (omega (arith, even), digits),
          ),
    )

digit_value-digit : (n : ℕ) → n < 16 → digit_value (digit n) ≡ some n
digit_value-digit n h = ground arith

hex_decode-encode : (bs : List ℕ) → All IsByte bs → hex_decode (hex_encode bs) ≡ some bs
hex_decode-encode [] h = refl
hex_decode-encode (b ∷ bs) (small, h) =
    rw
      (
        digit_value-digit (b / 16) (omega arith),
        digit_value-digit (b % 16) (omega arith),
        hex_decode-encode bs h,
      )
      (ap (λ v. some (v ∷ bs)) (omega arith))

hex_length-encode : (bs : List ℕ) → length (hex_encode bs) ≡ 2 * length bs
hex_length-encode [] = omega arith
hex_length-encode (b ∷ bs) = omega (arith, hex_length-encode bs)

pub hex_laws : HexLaws hex
hex_laws = record {
  accepts = hex_accepts;
  decode-encode = hex_decode-encode;
  length-encode = hex_length-encode;
}

-- References that keep their text. The registry is what stands before the first slash, a digest what
-- stands behind `@`, and a tag what stands behind the colon of the rest.
abbrev pub registry_of : Text → Text
registry_of t = elim (split_once b'/' t) [ none ↦ [] | some (a, _) ↦ a ]

abbrev pub path_of : Text → Text
path_of t = elim (split_once b'/' t) [ none ↦ t | some (_, b) ↦ b ]

abbrev pub before : ℕ → Text → Text
before c t = elim (split_once c t) [ none ↦ t | some (a, _) ↦ a ]

abbrev pub after : ℕ → Text → Option Text
after c t = elim (split_once c t) [ none ↦ none | some (_, b) ↦ some b ]

abbrev pub oci : OciClient
oci = record {
  Reference = Text;
  registry = registry_of;
  repository = λ t. before b':' (before b'@' (path_of t));
  tag = λ t. after b':' (before b'@' (path_of t));
  digest = λ t. after b'@' (path_of t);
  resolve_registry = registry_of;
  whole = λ t. t;
  try_from = λ t. some t;
}

pub oci_laws : OciLaws oci
oci_laws = record { try_from-whole = λ t. refl }
