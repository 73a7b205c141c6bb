-- ===== src/Text/Cut.antt =====
-- Two ways to write one text around a separator.
use coco_guest_components.Common.{ℕ, ◌≡◌, refl, ◌⊎◌, inl, inr, [], ◌∷◌, ◌++◌, arith}
use coco_guest_components.Text.{Text, IsFree}

pub IsFree-middle : (c : ℕ) (n r : Text) → ¬ (IsFree c (n ++ c ∷ r))
IsFree-middle c [] r h = h.0 refl
IsFree-middle c (x ∷ n) r h = IsFree-middle c n r h.1

-- A cut at a separator lies at the last one or before it.
pub cut_before :
    (c : ℕ) (n r a b : Text)
    → n ++ c ∷ r ≡ a ++ c ∷ b
    → IsFree c b
    → (n ≡ a) ⊎ ((s : Text) × (a ≡ n ++ c ∷ s))
cut_before c [] r [] b e h = inl refl
cut_before c [] r (y ∷ a) b e h = inr (a, ground arith)
cut_before c (x ∷ n) r [] b e h =
    let rest : b ≡ n ++ c ∷ r = ground arith in absurd (IsFree-middle c n r (rw rest at h))
cut_before c (x ∷ n) r (y ∷ a) b e h = elim (cut_before c n r a b (ground arith) h) [
  | inl same ↦ inl (ground arith)
  | inr (s, before) ↦ inr (s, ground arith)
]

-- A cut at a separator lies at the first one or after it.
pub cut_after :
    (c : ℕ) (p s a b : Text)
    → p ++ c ∷ s ≡ a ++ c ∷ b
    → IsFree c a
    → (s ≡ b) ⊎ ((q : Text) × (b ≡ q ++ c ∷ s))
cut_after c [] s [] b e h = inl (ground arith)
cut_after c [] s (y ∷ a) b e h = absurd (h.0 (ground arith))
cut_after c (x ∷ p) s [] b e h = inr (p, ground arith)
cut_after c (x ∷ p) s (y ∷ a) b e (n, h) = cut_after c p s a b (ground arith) h
