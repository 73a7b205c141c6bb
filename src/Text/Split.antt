-- ===== src/Text/Split.antt =====
-- Splitting at every separator, and joining again.
use coco_guest_components.Common.{
  ℕ, ◌≡◌, refl, sym, subst, ap, ◌∙◌, ◌≢◌, ◌↔◌, List, [], ◌∷◌, ◌++◌, All, arith,
}
use coco_guest_components.Text.{Text, IsFree, cons_first, split, join}

join-cons_first : (c x : ℕ) (ps : List Text) → ps ≢ [] → join c (cons_first x ps) ≡ x ∷ join c ps
unfolding join
join-cons_first c x [] h = absurd (h refl)
join-cons_first c x (p ∷ []) h = refl
join-cons_first c x (p ∷ q ∷ ps) h = refl

cons_first-ne-nil : (x : ℕ) (ps : List Text) → cons_first x ps ≢ []
cons_first-ne-nil x [] h = cc
cons_first-ne-nil x (p ∷ ps) h = cc

split-ne-nil : (c : ℕ) (t : Text) → split c t ≢ []
unfolding split
split-ne-nil c [] h = cc
split-ne-nil c (x ∷ t) h = ground (arith, cons_first-ne-nil x (split c t))

join-nil_cons : (c : ℕ) (ps : List Text) → ps ≢ [] → join c ([] ∷ ps) ≡ c ∷ join c ps
unfolding join
join-nil_cons c [] h = absurd (h refl)
join-nil_cons c (p ∷ ps) h = refl

-- Joining the parts gives the text back.
pub join-split : (c : ℕ) (t : Text) → join c (split c t) ≡ t
unfolding split
join-split c [] = unfold join in refl
join-split c (x ∷ t) = ground (
  arith,
  join-split c t,
  join-cons_first c x (split c t) (split-ne-nil c t),
  join-nil_cons c (split c t) (split-ne-nil c t),
)

All-cons_first :
    (c x : ℕ) (ps : List Text) → x ≢ c → All (IsFree c) ps → All (IsFree c) (cons_first x ps)
All-cons_first c x [] n h = ((n, tt), tt)
All-cons_first c x (p ∷ ps) n (f, h) = ((n, f), h)

-- No part holds the separator.
pub split-IsFree : (c : ℕ) (t : Text) → All (IsFree c) (split c t)
unfolding split
split-IsFree c [] = (tt, tt)
split-IsFree c (x ∷ t) = ground (arith, split-IsFree c t, All-cons_first c x (split c t))

pub split_free : (c : ℕ) (p : Text) → IsFree c p → split c p ≡ p ∷ []
unfolding split
split_free c [] h = refl
split_free c (x ∷ p) (n, h) = ground (arith, split_free c p h)

pub split-append : (c : ℕ) (p t : Text) → IsFree c p → split c (p ++ c ∷ t) ≡ p ∷ split c t
unfolding split
split-append c [] t h = ground arith
split-append c (x ∷ p) t (n, h) = ground (arith, split-append c p t h)

-- Parts without the separator come back from the joined text.
pub split-join :
    (c : ℕ) (p : Text) (ps : List Text)
    → All (IsFree c) (p ∷ ps)
    → split c (join c (p ∷ ps)) ≡ p ∷ ps
unfolding join
split-join c p [] (h, _) = split_free c p h
split-join c p (q ∷ ps) (h, hs) =
    split-append c p (join c (q ∷ ps)) h ∙ ap (λ r. p ∷ r) (split-join c q ps hs)

-- Splitting gives the parts `p ∷ ps` exactly if they hold no separator and make up the text.
pub split_iff :
    (c : ℕ) (t p : Text) (ps : List Text)
    → (split c t ≡ p ∷ ps) ↔ ((t ≡ join c (p ∷ ps)) × All (IsFree c) (p ∷ ps))
split_iff c t p ps = (
  λ e. (rw (← e) (sym (join-split c t)), subst (All (IsFree c)) e (split-IsFree c t)),
  λ (e, h). rw e (split-join c p ps h),
)
