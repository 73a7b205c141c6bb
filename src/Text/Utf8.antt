-- ===== src/Text/Utf8.antt =====
-- `String::from_utf8`: the well-formed byte sequences of the Unicode standard's table 3-7.
use coco_guest_components.Common.{
  ◌≡◌, arith, ℕ, zero, suc, Bool, true, false, ◌&&◌, Option, none, some, List, [], ◌∷◌, ltb, leb,
  if◌then◌else◌,
}
use coco_guest_components.Text.{Text}

abbrev between : ℕ → ℕ → ℕ → Bool
between lo hi b = leb lo b && leb b hi

-- What must follow a leading byte: the range of the second byte, and how many more continue.
expects : ℕ → Option (ℕ × ℕ × ℕ)
expects b =
    if between 0xc2 0xdf b
    then some (0x80, 0xbf, 0)
    else if between 0xe0 0xe0 b
    then some (0xa0, 0xbf, 1)
    else if between 0xed 0xed b
    then some (0x80, 0x9f, 1)
    else if between 0xe1 0xef b
    then some (0x80, 0xbf, 1)
    else if between 0xf0 0xf0 b
    then some (0x90, 0xbf, 2)
    else if between 0xf1 0xf3 b
    then some (0x80, 0xbf, 2)
    else if between 0xf4 0xf4 b
    then some (0x80, 0x8f, 2)
    else none

-- `pending` is what the next byte must be, `none` between characters.
valid_from : Option (ℕ × ℕ × ℕ) → List ℕ → Bool
valid_from none [] = true
valid_from (some _) [] = false
valid_from none (b ∷ bs) =
    let ascii = valid_from none bs in
    let more : Bool = elim (expects b) [ none ↦ false | some p ↦ valid_from (some p) bs ] in
    if ltb b 0x80 then ascii else more
valid_from (some (lo, hi, zero)) (b ∷ bs) = let rest = valid_from none bs in between lo hi b && rest
valid_from (some (lo, hi, suc k)) (b ∷ bs) =
    let rest = valid_from (some (0x80, 0xbf, k)) bs in between lo hi b && rest

unfoldable pub from_utf8 : List ℕ → Option Text
unfolding valid_from expects
from_utf8 bs = if valid_from none bs then some bs else none

pub from_utf8_sound : (bs t : List ℕ) → from_utf8 bs ≡ some t → t ≡ bs
unfolding from_utf8
from_utf8_sound bs t h = ground arith
