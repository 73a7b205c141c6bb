-- ===== src/Text.antt =====
-- Rust strings as the list of their UTF-8 bytes, and the methods of `str` that the program calls
-- with an ASCII separator: a separator is one byte, and no byte of a longer character equals it.
pub mod Laws
pub mod Split
pub mod Map
pub mod Cut
pub mod Utf8
pub mod Decimal
use Prim.Native.Char.{code}
use Prim.Native.String
use Prim.Native.String.{String}
use coco_guest_components.Common.{
  ℕ, ◌≡◌, ◌≢◌, Bool, true, false, ◌&&◌, ◌||◌, Option, none, some, List, [], ◌∷◌, ◌++◌, ◌==◌,
  if◌then◌else◌, All, is_some,
}

abbrev pub Text : Type 0
Text = List ℕ

-- The bytes of an ASCII literal.
abbrev pub bytes : String → Text
bytes String.[] = []
bytes (String.◌∷◌ c s) = code c ∷ bytes s

-- No byte of the text is `c`.
abbrev pub IsFree : ℕ → Text → Type 0
IsFree c t = All (λ x. x ≢ c) t

infix 50 ◌=ₜ◌
unfoldable pub ◌=ₜ◌ : Text → Text → Bool
[] =ₜ [] = true
(x ∷ s) =ₜ (y ∷ t) = x == y && s =ₜ t
_ =ₜ _ = false

-- `is_empty`
abbrev pub is_empty : Text → Bool
is_empty [] = true
is_empty (_ ∷ _) = false

-- `contains(c)`
unfoldable pub contains : ℕ → Text → Bool
contains c [] = false
contains c (x ∷ t) = x == c || contains c t

-- `strip_prefix(p)`
unfoldable pub strip_prefix : Text → Text → Option Text
strip_prefix [] t = some t
strip_prefix (_ ∷ _) [] = none
strip_prefix (x ∷ p) (y ∷ t) = if x == y then strip_prefix p t else none

-- `starts_with(p)`
unfoldable pub starts_with : Text → Text → Bool
unfolding strip_prefix
starts_with p t = is_some (strip_prefix p t)

-- One more byte in front of the first part of a split.
abbrev pub cons_first : ℕ → List Text → List Text
cons_first x [] = (x ∷ []) ∷ []
cons_first x (p ∷ ps) = (x ∷ p) ∷ ps

-- `split(c)`
unfoldable pub split : ℕ → Text → List Text
split c [] = [] ∷ []
split c (x ∷ t) = let rest = split c t in if x == c then [] ∷ rest else cons_first x rest

-- The parts with the separator between them.
unfoldable pub join : ℕ → List Text → Text
join c [] = []
join c (p ∷ []) = p
join c (p ∷ q ∷ ps) = p ++ c ∷ join c (q ∷ ps)

abbrev pub cons_left : ℕ → Option (Text × Text) → Option (Text × Text)
cons_left x none = none
cons_left x (some (a, b)) = some (x ∷ a, b)

-- `split_once(c)`: at the first `c`
unfoldable pub split_once : ℕ → Text → Option (Text × Text)
split_once c [] = none
split_once c (x ∷ t) =
    let rest = split_once c t in if x == c then some ([], t) else cons_left x rest

abbrev pub or_here : ℕ → ℕ → Text → Option (Text × Text) → Option (Text × Text)
or_here c x t none = if x == c then some ([], t) else none
or_here c x t (some (a, b)) = some (x ∷ a, b)

-- `rsplit_once(c)`: at the last `c`
unfoldable pub rsplit_once : ℕ → Text → Option (Text × Text)
rsplit_once c [] = none
rsplit_once c (x ∷ t) = or_here c x t (rsplit_once c t)
