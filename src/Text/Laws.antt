-- ===== src/Text/Laws.antt =====
-- Equality, prefixes and the search for a byte, as relations.
use coco_guest_components.Common.{
  ℕ, ◌<◌, ◌≡◌, refl, ◌≢◌, ◌↔◌, true, false, none, some, [], ◌∷◌, ◌++◌, length, length-append, arith,
}
use coco_guest_components.Text.{
  Text, IsFree, is_empty, ◌=ₜ◌, contains, strip_prefix, split_once, rsplit_once,
}

pub is_empty-false : (t : Text) → t ≢ [] → is_empty t ≡ false
is_empty-false [] h = absurd (h refl)
is_empty-false (_ ∷ _) h = refl

pub text_eq_refl : (s : Text) → s =ₜ s ≡ true
unfolding ◌=ₜ◌
text_eq_refl [] = refl
text_eq_refl (x ∷ s) = ground (arith, text_eq_refl s)

text_eq_sound : (s t : Text) → s =ₜ t ≡ true → s ≡ t
unfolding ◌=ₜ◌
text_eq_sound [] [] h = refl
text_eq_sound [] (y ∷ t) h = cc
text_eq_sound (x ∷ s) [] h = cc
text_eq_sound (x ∷ s) (y ∷ t) h = ground (arith, text_eq_sound s t)

pub text_eq_iff : (s t : Text) → (s =ₜ t ≡ true) ↔ (s ≡ t)
text_eq_iff s t = (text_eq_sound s t, λ e. rw e (text_eq_refl t))

pub text_ne : (s t : Text) → s ≢ t → s =ₜ t ≡ false
text_ne s t h = ground (arith, text_eq_iff s t)

pub contains-eq-false_iff : (c : ℕ) (t : Text) → (contains c t ≡ false) ↔ IsFree c t
unfolding contains
contains-eq-false_iff c [] = (λ _. tt, λ _. refl)
contains-eq-false_iff c (x ∷ t) =
    let (to, from) = contains-eq-false_iff c t in
    (λ h. (ground arith, to (ground arith)), λ h. ground (arith, from h.1))

pub strip_prefix-append : (p t : Text) → strip_prefix p (p ++ t) ≡ some t
unfolding strip_prefix
strip_prefix-append [] t = refl
strip_prefix-append (x ∷ p) t = ground (arith, strip_prefix-append p t)

pub strip_prefix_sound : (p s t : Text) → strip_prefix p s ≡ some t → s ≡ p ++ t
unfolding strip_prefix
strip_prefix_sound [] s t h = ground arith
strip_prefix_sound (x ∷ p) [] t h = cc
strip_prefix_sound (x ∷ p) (y ∷ s) t h = ground (arith, strip_prefix_sound p s t)

-- `strip_prefix` succeeds with `t` exactly if the text is the prefix and then `t`.
pub strip_prefix_iff : (p s t : Text) → (strip_prefix p s ≡ some t) ↔ (s ≡ p ++ t)
strip_prefix_iff p s t = (strip_prefix_sound p s t, λ e. rw e (strip_prefix-append p t))

pub split_once_sound :
    (c : ℕ) (t a b : Text) → split_once c t ≡ some (a, b) → (t ≡ a ++ c ∷ b) × IsFree c a
unfolding split_once
split_once_sound c [] a b h = cc
split_once_sound c (x ∷ t) [] b h = ground (arith, split_once_sound c t [] b)
split_once_sound c (x ∷ t) (y ∷ a) b h = ground (arith, split_once_sound c t a b)

pub split_once-append : (c : ℕ) (a b : Text) → IsFree c a → split_once c (a ++ c ∷ b) ≡ some (a, b)
unfolding split_once
split_once-append c [] b h = ground arith
split_once-append c (x ∷ a) b (n, h) = ground (arith, split_once-append c a b h)

-- `split_once` cuts at the first separator.
pub split_once_iff :
    (c : ℕ) (t a b : Text) → (split_once c t ≡ some (a, b)) ↔ ((t ≡ a ++ c ∷ b) × IsFree c a)
split_once_iff c t a b = (split_once_sound c t a b, λ (e, h). rw e (split_once-append c a b h))

pub rsplit_once-eq-none : (c : ℕ) (t : Text) → rsplit_once c t ≡ none → IsFree c t
unfolding rsplit_once
rsplit_once-eq-none c [] h = tt
rsplit_once-eq-none c (x ∷ t) h = (ground arith, rsplit_once-eq-none c t (ground arith))

pub rsplit_once_free : (c : ℕ) (t : Text) → IsFree c t → rsplit_once c t ≡ none
unfolding rsplit_once
rsplit_once_free c [] h = refl
rsplit_once_free c (x ∷ t) (n, h) = ground (arith, rsplit_once_free c t h)

pub rsplit_once_sound :
    (c : ℕ) (t a b : Text) → rsplit_once c t ≡ some (a, b) → (t ≡ a ++ c ∷ b) × IsFree c b
unfolding rsplit_once
rsplit_once_sound c [] a b h = cc
rsplit_once_sound c (x ∷ t) [] b h = ground (arith, rsplit_once-eq-none c t)
rsplit_once_sound c (x ∷ t) (y ∷ a) b h = ground (arith, rsplit_once_sound c t a b)

pub rsplit_once-append :
    (c : ℕ) (a b : Text) → IsFree c b → rsplit_once c (a ++ c ∷ b) ≡ some (a, b)
unfolding rsplit_once
rsplit_once-append c [] b h = ground (arith, rsplit_once_free c b h)
rsplit_once-append c (x ∷ a) b h = ground (arith, rsplit_once-append c a b h)

-- `rsplit_once` cuts at the last separator.
pub rsplit_once_iff :
    (c : ℕ) (t a b : Text) → (rsplit_once c t ≡ some (a, b)) ↔ ((t ≡ a ++ c ∷ b) × IsFree c b)
rsplit_once_iff c t a b = (rsplit_once_sound c t a b, λ (e, h). rw e (rsplit_once-append c a b h))

pub split_once_free : (c : ℕ) (t : Text) → IsFree c t → split_once c t ≡ none
unfolding split_once
split_once_free c [] h = refl
split_once_free c (x ∷ t) (n, h) = ground (arith, split_once_free c t h)

pub split_once-eq-none : (c : ℕ) (t : Text) → split_once c t ≡ none → IsFree c t
unfolding split_once
split_once-eq-none c [] h = tt
split_once-eq-none c (x ∷ t) h = (ground arith, split_once-eq-none c t (ground arith))

-- The part before the last separator is shorter than the text.
pub length-rsplit_once :
    (c : ℕ) (t a b : Text) → rsplit_once c t ≡ some (a, b) → length a < length t
length-rsplit_once c t a b h =
    let (e, _) = rsplit_once_sound c t a b h in rw e (omega (arith, length-append a (c ∷ b)))

pub length-split_once : (c : ℕ) (t a b : Text) → split_once c t ≡ some (a, b) → length b < length t
length-split_once c t a b h =
    let (e, _) = split_once_sound c t a b h in rw e (omega (arith, length-append a (c ∷ b)))
