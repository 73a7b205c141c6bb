-- ===== src/EventLog/Lines.antt =====
-- The methods of `str` that take a log apart: lines, words and the whitespace at an end.
use coco_guest_components.Common.{
  ℕ, Bool, true, false, ◌&&◌, ◌||◌, List, [], ◌∷◌, ◌++◌, ◌==◌, leb, if◌then◌else◌,
}
use coco_guest_components.Text.{Text, is_empty, split}

-- A carriage return at the end.
unfoldable pub strip_cr : Text → Text
strip_cr [] = []
strip_cr (x ∷ []) = if x == 13 then [] else x ∷ []
strip_cr (x ∷ y ∷ t) = x ∷ strip_cr (y ∷ t)

-- The empty part behind the last newline is no line, and only in front of a newline is a carriage
-- return removed.
abbrev pub strip_lines : List Text → List Text
strip_lines [] = []
strip_lines (l ∷ []) = if is_empty l then [] else l ∷ []
strip_lines (l ∷ m ∷ ls) = strip_cr l ∷ strip_lines (m ∷ ls)

-- `lines()`
unfoldable pub lines : Text → List Text
lines t = strip_lines (split 10 t)

-- The ASCII whitespace of `split_ascii_whitespace`: tab, newline, form feed, return, space.
unfoldable pub is_ascii_whitespace : ℕ → Bool
is_ascii_whitespace c = c == 9 || c == 10 || c == 12 || c == 13 || c == 32

-- `split_ascii_whitespace()`, with the word read so far
abbrev pub add_word : Text → List Text → List Text
add_word w ws = if is_empty w then ws else w ∷ ws

unfoldable pub words_from : Text → Text → List Text
words_from w [] = add_word w []
words_from w (x ∷ t) = elim (is_ascii_whitespace x) [
  | true ↦ add_word w (words_from [] t)
  | false ↦ words_from (w ++ x ∷ []) t
]

unfoldable pub split_ascii_whitespace : Text → List Text
split_ascii_whitespace t = words_from [] t

-- Whitespace characters of one, two and three bytes, from the last byte on.
abbrev pub is_space_1 : ℕ → Bool
is_space_1 x = leb 9 x && leb x 13 || x == 32

abbrev pub is_space_2 : ℕ → ℕ → Bool
is_space_2 x y = y == 0xC2 && (x == 0x85 || x == 0xA0)

abbrev pub is_space_3 : ℕ → ℕ → ℕ → Bool
is_space_3 x y z =
    z == 0xE1 && y == 0x9A && x == 0x80
    || z == 0xE2 && y == 0x80 && (leb 0x80 x && leb x 0x8A || x == 0xA8 || x == 0xA9 || x == 0xAF)
    || z == 0xE2 && y == 0x81 && x == 0x9F
    || z == 0xE3 && y == 0x80 && x == 0x80

abbrev pub trim_reversed : Text → Text
trim_reversed [] = []
trim_reversed (x ∷ []) = elim (is_space_1 x) [ true ↦ [] | false ↦ x ∷ [] ]
trim_reversed (x ∷ y ∷ []) = elim (is_space_1 x) [
  | true ↦ trim_reversed (y ∷ [])
  | false ↦ elim (is_space_2 x y) [ true ↦ [] | false ↦ x ∷ y ∷ [] ]
]
trim_reversed (x ∷ y ∷ z ∷ t) = elim (is_space_1 x) [
  | true ↦ trim_reversed (y ∷ z ∷ t)
  | false ↦ elim (is_space_2 x y) [
    | true ↦ trim_reversed (z ∷ t)
    | false ↦ elim (is_space_3 x y z) [ true ↦ trim_reversed t | false ↦ x ∷ y ∷ z ∷ t ]
  ]
]

abbrev pub reverse_onto : Text → Text → Text
reverse_onto [] acc = acc
reverse_onto (x ∷ t) acc = reverse_onto t (x ∷ acc)

-- `trim_end()`
unfoldable pub trim_end : Text → Text
trim_end t = reverse_onto (trim_reversed (reverse_onto t [])) []
