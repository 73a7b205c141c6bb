-- ===== src/Text/Decimal.antt =====
-- `to_string` of an unsigned integer, and `parse::<usize>()` on 64 bits.
use coco_guest_components.Common.{
  ℕ, zero, suc, ◌+◌, ◌-◌, ◌*◌, ◌/◌, ◌%◌, ◌≤◌, ◌<◌, ◌≡◌, refl, sym, ap, ◌∙◌, true, false, ◌&&◌,
  Option, none, some, Bool-cases, Option-cases, inl, inr, [], ◌∷◌, ◌++◌, ltb, leb, ltb→lt, lt→ltb,
  ◌==◌, if◌then◌else◌, arith,
}
use coco_guest_components.Text.{Text}

-- At most `f` digits.
unfoldable pub decimal : ℕ → ℕ → Text
decimal zero n = []
decimal (suc f) n =
    let rest = decimal f (n / 10) in
    if ltb n 10 then (b'0' + n) ∷ [] else rest ++ (b'0' + n % 10) ∷ []

-- 2 ^ 64
abbrev pub usize_bound : ℕ
usize_bound = 18446744073709551616

-- One more digit, if it is one and the value fits.
unfoldable pub add_digit : ℕ → ℕ → Option ℕ
add_digit v c =
    if leb b'0' c && leb c b'9' && ltb (v * 10 + (c - b'0')) usize_bound
    then some (v * 10 + (c - b'0'))
    else none

unfoldable pub digits_value : ℕ → Text → Option ℕ
digits_value v [] = some v
digits_value v (c ∷ t) = elim (add_digit v c) [ none ↦ none | some w ↦ digits_value w t ]

-- A sign `+` may stand in front of the digits.
unfoldable pub parse_usize : Text → Option ℕ
parse_usize [] = none
parse_usize (c ∷ []) = digits_value 0 (c ∷ [])
parse_usize (c ∷ d ∷ t) = if c == b'+' then digits_value 0 (d ∷ t) else digits_value 0 (c ∷ d ∷ t)

abbrev pub power_of_ten : ℕ → ℕ
power_of_ten zero = 1
power_of_ten (suc f) = 10 * power_of_ten f

digits_value-snoc :
    (v w : ℕ) (t : Text) (c : ℕ)
    → digits_value v t ≡ some w
    → digits_value v (t ++ c ∷ []) ≡ add_digit w c
unfolding digits_value
digits_value-snoc v w [] c h = elim (Option-cases (add_digit v c)) [
  | inl missing ↦ ground (arith, missing, h)
  | inr (u, found) ↦ ground (arith, found, h)
]
digits_value-snoc v w (x ∷ t) c h = elim (Option-cases (add_digit v x)) [
  | inl missing ↦ absurd (ground (arith, missing, h))
  | inr (u, found) ↦
      rw (found, digits_value) (digits_value-snoc u w t c (rw (found, digits_value) at h))
]

add_digit_lem :
    (v d : ℕ) → d < 10 → v * 10 + d < usize_bound → add_digit v (b'0' + d) ≡ some (v * 10 + d)
unfolding add_digit
add_digit_lem v d small h = ground arith

decimal_small : (f n : ℕ) → ltb n 10 ≡ true → decimal (suc f) n ≡ (b'0' + n) ∷ []
unfolding decimal
decimal_small f n h = rw h refl

decimal_large :
    (f n : ℕ) → ltb n 10 ≡ false → decimal (suc f) n ≡ decimal f (n / 10) ++ (b'0' + n % 10) ∷ []
unfolding decimal
decimal_large f n h = rw h refl

one_digit : (c : ℕ) → digits_value 0 (c ∷ []) ≡ add_digit 0 c
unfolding digits_value
one_digit c = elim (Option-cases (add_digit 0 c)) [
  | inl missing ↦ ground (arith, missing)
  | inr (u, found) ↦ ground (arith, found)
]

decimal_digit :
    (f n : ℕ) → ltb n 10 ≡ true → n < usize_bound → digits_value 0 (decimal (suc f) n) ≡ some n
decimal_digit f n small b =
    ap (digits_value 0) (decimal_small f n small)
    ∙ one_digit (b'0' + n)
    ∙ add_digit_lem 0 n (ltb→lt n 10 small) (omega (arith, b))
    ∙ ap some (omega arith)

-- The value of what is printed.
digits_value-decimal :
    (f n : ℕ)
    → n < power_of_ten (suc f)
    → n < usize_bound
    → digits_value 0 (decimal (suc f) n) ≡ some n
digits_value-decimal zero n h b = decimal_digit zero n (lt→ltb n 10 (omega (arith, h))) b
digits_value-decimal (suc f) n h b = elim (Bool-cases (ltb n 10)) [
  | inl small ↦ decimal_digit (suc f) n small b
  | inr large ↦
      ap (digits_value 0) (decimal_large (suc f) n large)
      ∙ digits_value-snoc 0 (n / 10) (decimal (suc f) (n / 10)) (b'0' + n % 10)
          (digits_value-decimal f (n / 10) (omega (arith, h)) (omega (arith, b)))
      ∙ add_digit_lem (n / 10) (n % 10) (omega arith) (omega (arith, b))
      ∙ ap some (omega arith)
]

no_digits : (n c : ℕ) → decimal zero n ++ c ∷ [] ≡ c ∷ []
unfolding decimal
no_digits n c = refl

-- A digit comes first.
decimal_head : (f n : ℕ) → (c : ℕ) × (t : Text) × (decimal (suc f) n ≡ c ∷ t) × (b'0' ≤ c)
decimal_head zero n = elim (Bool-cases (ltb n 10)) [
  | inl small ↦ (b'0' + n, [], decimal_small zero n small, omega arith)
  | inr large ↦ (
    b'0' + n % 10,
    [],
    decimal_large zero n large ∙ no_digits (n / 10) (b'0' + n % 10),
    omega arith,
  )
]
decimal_head (suc f) n = elim (Bool-cases (ltb n 10)) [
  | inl small ↦ (b'0' + n, [], decimal_small (suc f) n small, omega arith)
  | inr large ↦
      let (c, t, e, le) = decimal_head f (n / 10) in
      (
        c,
        t ++ (b'0' + n % 10) ∷ [],
        decimal_large (suc f) n large ∙ ap (λ r. r ++ (b'0' + n % 10) ∷ []) e,
        le,
      )
]

no_sign : (c : ℕ) (t : Text) → b'0' ≤ c → parse_usize (c ∷ t) ≡ digits_value 0 (c ∷ t)
unfolding parse_usize
no_sign c [] h = refl
no_sign c (d ∷ t) h = ground arith

-- What is printed is parsed back.
pub parse_usize-decimal : (n : ℕ) → n < usize_bound → parse_usize (decimal 20 n) ≡ some n
parse_usize-decimal n h =
    let (c, t, e, le) = decimal_head 19 n in
    ap parse_usize e
    ∙ no_sign c t le
    ∙ ap (digits_value 0) (sym e)
    ∙ digits_value-decimal 19 n (omega (arith, h)) h
