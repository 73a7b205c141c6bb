-- ===== src/Signature/Image/Digest/Laws.antt =====
-- Which texts are digests.
use coco_guest_components.Common.{
  ◌%◌, ◌<◌, ◌∙◌, ◌≡◌, refl, ◌↔◌, inl, inr, true, false, some, List, [], ◌∷◌, All, length, is_some,
  ok, arith, Option-cases,
}
use coco_guest_components.Text.{Text, IsFree, ◌=ₜ◌, is_empty, split, join}
use coco_guest_components.Text.Laws.{text_eq_iff}
use coco_guest_components.Text.Split.{split_iff}
use coco_guest_components.External.Hex.{Hex, HexLaws, IsHexDigit}
use coco_guest_components.Signature.Image.Digest.{
  Algorithm, sha256, sha384, sha512, Digest, print, name_of, expected_len, algorithm_of,
  check_length, check_parts, parse,
}

-- A digest that names a known algorithm and has as many hexadecimal digits as it needs.
pub record IsDigest (d : Digest) : Type 0 where
  pub kind : Algorithm
  pub named : d.algorithm ≡ name_of kind
  pub sized : length d.value ≡ expected_len kind
  pub digits : All IsHexDigit d.value

algorithm_of-name_of : (a : Algorithm) → algorithm_of (name_of a) ≡ some a
unfolding algorithm_of ◌=ₜ◌
algorithm_of-name_of sha256 = refl
algorithm_of-name_of sha384 = refl
algorithm_of-name_of sha512 = refl

algorithm_of_sound : (s : Text) (a : Algorithm) → algorithm_of s ≡ some a → s ≡ name_of a
unfolding algorithm_of
algorithm_of_sound s a h = ground (
  arith,
  text_eq_iff s (name_of sha256),
  text_eq_iff s (name_of sha384),
  text_eq_iff s (name_of sha512),
)

digit_ne_colon : (t : Text) → All IsHexDigit t → IsFree b':' t
digit_ne_colon [] h = tt
digit_ne_colon (c ∷ t) (d, h) = (ground arith, digit_ne_colon t h)

name-IsFree : (a : Algorithm) → IsFree b':' (name_of a)
name-IsFree sha256 = omega arith
name-IsFree sha384 = omega arith
name-IsFree sha512 = omega arith

-- The lengths are even and not zero, and the names not empty.
even_len : (a : Algorithm) → (expected_len a % 2 ≡ 0) × (0 < expected_len a)
even_len sha256 = omega arith
even_len sha384 = omega arith
even_len sha512 = omega arith

name_ne_nil : (a : Algorithm) → is_empty (name_of a) ≡ false
name_ne_nil sha256 = refl
name_ne_nil sha384 = refl
name_ne_nil sha512 = refl

module _ (hex : Hex) (laws : HexLaws hex) where
  check_parts_sound :
      (ps : List Text) (d : Digest)
      → check_parts hex ps ≡ ok d
      → (ps ≡ d.algorithm ∷ d.value ∷ []) × IsDigest d
  unfolding check_parts check_length
  check_parts_sound [] d h = cc
  check_parts_sound (a ∷ []) d h = cc
  check_parts_sound (a ∷ v ∷ []) d h = elim (Option-cases (algorithm_of a)) [
    | inl unknown ↦ absurd (ground (arith, unknown))
    | inr (k, e) ↦
        let accepted : is_some (hex.decode v) ≡ true = ground (arith, e) in
        let split_at : (d.algorithm ≡ a) × (d.value ≡ v) × (length v ≡ expected_len k) =
          ground (arith, e) in
        (
          ground (arith, split_at),
          record {
            kind = k;
            named = split_at.0 ∙ algorithm_of_sound a k e;
            sized = rw (split_at.1) (split_at.2);
            digits = rw (split_at.1) (((laws.accepts v).0 accepted).1);
          },
        )
  ]
  check_parts_sound (a ∷ v ∷ w ∷ ps) d h = cc

  check_parts_complete :
      (d : Digest) → IsDigest d → check_parts hex (d.algorithm ∷ d.value ∷ []) ≡ ok d
  unfolding check_parts check_length
  check_parts_complete d v =
      let known : algorithm_of d.algorithm ≡ some v.kind =
        rw (v.named) (algorithm_of-name_of v.kind) in
      ground (arith, known, name_ne_nil v.kind, even_len v.kind, (laws.accepts d.value).1)

-- A text is accepted as the digest `d` exactly if it is `d` as printed, and `d` names sha256, sha384
-- or sha512 and has 64, 96 or 128 hexadecimal digits.
pub parse_iff :
    (hex : Hex) (laws : HexLaws hex) (s : Text) (d : Digest)
    → (parse hex s ≡ ok d) ↔ ((s ≡ print d) × IsDigest d)
unfolding parse print join
parse_iff hex laws s d =
    let parts = split_iff b':' s d.algorithm (d.value ∷ []) in
    (
      λ h.
          let (split_at, good) = check_parts_sound hex laws (split b':' s) d h in
          ((parts.0 split_at).0, good),
      λ (e, good).
          let free : All (IsFree b':') (d.algorithm ∷ d.value ∷ []) =
            (rw (good.named) (name-IsFree good.kind), (digit_ne_colon d.value good.digits, tt)) in
          rw (parts.1 (e, free)) (check_parts_complete hex laws d good),
    )
