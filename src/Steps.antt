-- ===== src/Steps.antt =====
-- Code that changes a state and may fail after it has: `async fn` on `&mut self` with `?`.
use coco_guest_components.Common.{ℕ, ◌+◌, ◌≡◌, ◌≢◌, refl, Result, ok, err}

abbrev pub Steps : Type 0 → Type 0 → Type 0 → Type 0
Steps S E A = S → S × Result E A

module _ {S E : Type 0} where
  abbrev pub after : {A B : Type 0} → S × Result E A → (A → Steps S E B) → S × Result E B
  after (w, err e) f = (w, err e)
  after (w, ok a) f = f a w

  infixl 5 ◌>>=◌
  abbrev pub ◌>>=◌ : {A B : Type 0} → Steps S E A → (A → Steps S E B) → Steps S E B
  ◌>>=◌ m f w = after (m w) f

  abbrev pub lift : {A : Type 0} → Result E A → Steps S E A
  lift r w = (w, r)

  -- Inversion of a successful bind.
  pub after_ok :
      {A B : Type 0} (p : S × Result E A) (f : A → Steps S E B) {w' : S} {b : B}
      → after p f ≡ (w', ok b)
      → (v : S) × (a : A) × (p ≡ (v, ok a)) × (f a v ≡ (w', ok b))
  after_ok (w, err e) f h = cc
  after_ok (w, ok a) f h = (w, a, refl, h)

  -- The same for a proof that goes on with the parts as variables.
  pub after_elim {ℓ} :
      {A B : Type 0} {R : Type ℓ} (p : S × Result E A) (f : A → Steps S E B) {w' : S} {b : B}
      → after p f ≡ (w', ok b)
      → ((v : S) (a : A) → p ≡ (v, ok a) → f a v ≡ (w', ok b) → R)
      → R
  after_elim p f h rest = let (v, a, e, k) = after_ok p f h in rest v a e k

  -- What holds between the states around two steps adds up, whether the first one fails or not.
  pub after_adds {ℓ} :
      {A B : Type 0} (R : ℕ → S → S → Type ℓ) (j k : ℕ) (w : S) (p : S × Result E A)
      (f : A → Steps S E B)
      → ((v : S) → R j w v → R (j + k) w v)
      → ((v u : S) → R j w v → R k v u → R (j + k) w u)
      → R j w p.0
      → ((a : A) (v : S) → R k v (f a v).0)
      → R (j + k) w (after p f).0
  after_adds R j k w (v, err e) f more join first rest = more v first
  after_adds R j k w (v, ok a) f more join first rest = join v (f a v).0 first (rest a v)

  -- An error that neither of two steps gives is not given by both.
  pub after_avoids :
      {A B : Type 0} (e : E) (p : S × Result E A) (f : A → Steps S E B)
      → p.1 ≢ err e
      → ((v : S) (a : A) → p ≡ (v, ok a) → (f a v).1 ≢ err e)
      → (after p f).1 ≢ err e
  after_avoids e (w, err x) f first rest = λ h. first (cc)
  after_avoids e (w, ok a) f first rest = rest w a refl

  -- What holds of the state after a step, and after all that follows its result, holds at the end.
  pub after_keeps {ℓ} :
      {A B : Type 0} (I : S → Type ℓ) (p : S × Result E A) (f : A → Steps S E B)
      → I p.0
      → ((a : A) → p.1 ≡ ok a → I (f a p.0).0)
      → I (after p f).0
  after_keeps I (w, err e) f kept rest = kept
  after_keeps I (w, ok a) f kept rest = rest a refl
