-- ===== src/Pull/Layers.antt =====
-- image-rs/src/pull.rs: all layers of an image, pulled concurrently. The downloads end in any order:
-- the list of completions is an argument, each with the position of its layer.
use mathlib.Core.List.{Permᴰ}
use coco_guest_components.Common.{
  ℕ, suc, ◌≤◌, ◌<◌, ◌≡◌, refl, sym, ap, ◌∙◌, List, [], ◌∷◌, ◌++◌, append-nil, append_assoc, Memᴰ,
  ◌==◌, ltb, ==_iff, if◌then◌else◌, All, Result, ok, err, arith,
}

module _ {A : Type 0} where
  -- `BTreeMap::insert` at numbers
  unfoldable pub insert : ℕ → A → List (ℕ × A) → List (ℕ × A)
  insert i a [] = (i, a) ∷ []
  insert i a ((j, b) ∷ m) =
      let later = (j, b) ∷ insert i a m in
      if i == j then (i, a) ∷ m else if ltb i j then (i, a) ∷ (j, b) ∷ m else later

  -- `collect` into the map: later entries replace earlier ones of the same position.
  unfoldable pub collect_into : List (ℕ × A) → List (ℕ × A) → List (ℕ × A)
  collect_into m [] = m
  collect_into m ((i, a) ∷ rest) = collect_into (insert i a m) rest

  -- `into_values`
  unfoldable pub into_values : List (ℕ × A) → List A
  into_values [] = []
  into_values ((i, a) ∷ m) = a ∷ into_values m

  -- `try_collect`: the first error ends it.
  unfoldable pub try_collect {κ} : {E : Type κ} → List (ℕ × Result E A) → Result E (List (ℕ × A))
  try_collect [] = ok []
  try_collect ((i, err e) ∷ rest) = err e
  try_collect ((i, ok a) ∷ rest) = elim (try_collect rest) [
    | err e ↦ err e
    | ok done ↦ ok ((i, a) ∷ done)
  ]

  unfoldable pub async_pull_layers {κ} : {E : Type κ} → List (ℕ × Result E A) → Result E (List A)
  async_pull_layers completions = elim (try_collect completions) [
    | err e ↦ err e
    | ok layer_metas ↦ ok (into_values (collect_into [] layer_metas))
  ]

  -- The results in the order of the layers, from position `k`.
  unfoldable pub enumerate : ℕ → List A → List (ℕ × A)
  enumerate k [] = []
  enumerate k (a ∷ rest) = (k, a) ∷ enumerate (suc k) rest

  insert_comm :
      (i j : ℕ) (a b : A) (m : List (ℕ × A))
      → (i ≡ j → a ≡ b)
      → insert i a (insert j b m) ≡ insert j b (insert i a m)
  unfolding insert
  insert_comm i j a b [] h = ground (arith, ==_iff i j)
  insert_comm i j a b ((k, c) ∷ m) h = ground (arith, insert_comm i j a b m h)

  -- Entries of one position agree.
  abbrev Agrees : List (ℕ × A) → Type 0
  Agrees xs = (i : ℕ) (a b : A) → Memᴰ (i, a) xs → Memᴰ (i, b) xs → a ≡ b

  Memᴰ-perm : {x : ℕ × A} {xs ys : List (ℕ × A)} → Permᴰ xs ys → Memᴰ x xs → Memᴰ x ys
  Memᴰ-perm Permᴰ.nil m = m
  Memᴰ-perm (Permᴰ.cons e p) (Memᴰ.head h) = Memᴰ.head (h ∙ e)
  Memᴰ-perm (Permᴰ.cons e p) (Memᴰ.tail m) = Memᴰ.tail (Memᴰ-perm p m)
  Memᴰ-perm (Permᴰ.swap e f) (Memᴰ.head h) = Memᴰ.tail (Memᴰ.head (h ∙ e))
  Memᴰ-perm (Permᴰ.swap e f) (Memᴰ.tail (Memᴰ.head h)) = Memᴰ.head (h ∙ f)
  Memᴰ-perm (Permᴰ.swap e f) (Memᴰ.tail (Memᴰ.tail m)) = Memᴰ.tail (Memᴰ.tail m)
  Memᴰ-perm (Permᴰ.trans p q) m = Memᴰ-perm q (Memᴰ-perm p m)

  Agrees-perm : {xs ys : List (ℕ × A)} → Permᴰ xs ys → Agrees ys → Agrees xs
  Agrees-perm p h i a b m n = h i a b (Memᴰ-perm p m) (Memᴰ-perm p n)

  collect-perm :
      (m : List (ℕ × A)) {xs ys : List (ℕ × A)}
      → Permᴰ xs ys
      → Agrees ys
      → collect_into m xs ≡ collect_into m ys
  unfolding collect_into
  collect-perm m Permᴰ.nil h = refl
  collect-perm m (Permᴰ.cons {a = p} {b = q} {l₁ = xs} e r) h =
      rw e (collect-perm (insert q.0 q.1 m) r (λ i a b l k. h i a b (Memᴰ.tail l) (Memᴰ.tail k)))
  collect-perm m (Permᴰ.swap {a = p} {b = q} {l = l} e f) h =
      let alike : q.0 ≡ p.0 → q.1 ≡ p.1 =
        λ ie. h q.0 q.1 p.1 (Memᴰ.head f) (Memᴰ.tail (Memᴰ.head (ap (λ i. (i, p.1)) ie ∙ e))) in
      rw (← e, ← f) (ap (λ n. collect_into n l) (insert_comm q.0 p.0 q.1 p.1 m alike))
  collect-perm m (Permᴰ.trans p q) h = collect-perm m p (Agrees-perm q h) ∙ collect-perm m q h

  -- A position past all others comes last.
  insert_last :
      (k : ℕ) (a : A) (m : List (ℕ × A)) → All (λ x. x.0 < k) m → insert k a m ≡ m ++ (k, a) ∷ []
  unfolding insert
  insert_last k a [] h = refl
  insert_last k a ((j, b) ∷ m) (lt, h) = ground (arith, insert_last k a m h)

  more_below :
      (k : ℕ) (a : A) (m : List (ℕ × A))
      → All (λ x. x.0 < k) m
      → All (λ x. x.0 < suc k) (m ++ (k, a) ∷ [])
  more_below k a [] h = (omega arith, tt)
  more_below k a ((j, b) ∷ m) (lt, h) = (omega arith, more_below k a m h)

  collect_enumerated :
      (k : ℕ) (m : List (ℕ × A)) (metas : List A)
      → All (λ x. x.0 < k) m
      → collect_into m (enumerate k metas) ≡ m ++ enumerate k metas
  unfolding collect_into enumerate
  collect_enumerated k m [] h = sym (append-nil m)
  collect_enumerated k m (a ∷ rest) h =
      ap (λ n. collect_into n (enumerate (suc k) rest)) (insert_last k a m h)
      ∙ collect_enumerated (suc k) (m ++ (k, a) ∷ []) rest (more_below k a m h)
      ∙ append_assoc m ((k, a) ∷ []) (enumerate (suc k) rest)

  into_values-enumerate : (k : ℕ) (metas : List A) → into_values (enumerate k metas) ≡ metas
  unfolding into_values enumerate
  into_values-enumerate k [] = refl
  into_values-enumerate k (a ∷ rest) = ap (λ r. a ∷ r) (into_values-enumerate (suc k) rest)

  enumerate_from :
      (k : ℕ) (metas : List A) {i : ℕ} {a : A} → Memᴰ (i, a) (enumerate k metas) → k ≤ i
  unfolding enumerate
  enumerate_from k [] m = elim m [ ]
  enumerate_from k (x ∷ rest) (Memᴰ.head e) = omega (arith, ap (λ p. p.0) e)
  enumerate_from k (x ∷ rest) (Memᴰ.tail m) = omega (arith, enumerate_from (suc k) rest m)

  enumerate-Agrees : (k : ℕ) (metas : List A) → Agrees (enumerate k metas)
  unfolding enumerate
  enumerate-Agrees k [] i a b m n = elim m [ ]
  enumerate-Agrees k (x ∷ rest) i a b (Memᴰ.head e) (Memᴰ.head f) = ap (λ p. p.1) (e ∙ sym f)
  enumerate-Agrees k (x ∷ rest) i a b (Memᴰ.head e) (Memᴰ.tail n) =
      absurd (omega (arith, ap (λ p. p.0) e, enumerate_from (suc k) rest n))
  enumerate-Agrees k (x ∷ rest) i a b (Memᴰ.tail m) (Memᴰ.head f) =
      absurd (omega (arith, ap (λ p. p.0) f, enumerate_from (suc k) rest m))
  enumerate-Agrees k (x ∷ rest) i a b (Memᴰ.tail m) (Memᴰ.tail n) =
      enumerate-Agrees (suc k) rest i a b m n

  -- The completions of layers that all succeeded.
  abbrev pub succeeded {κ} : {E : Type κ} → List (ℕ × A) → List (ℕ × Result E A)
  succeeded [] = []
  succeeded ((i, a) ∷ rest) = (i, ok a) ∷ succeeded rest

  try_collect-succeeded {κ} :
      {E : Type κ} (done : List (ℕ × A)) → try_collect {E = E} (succeeded done) ≡ ok done
  unfolding try_collect
  try_collect-succeeded [] = refl
  try_collect-succeeded {E} ((i, a) ∷ rest) = ground (arith, try_collect-succeeded {E = E} rest)

  -- If every layer is pulled, the layers come in the order of the manifest, whatever the order in which
  -- the downloads end.
  pub async_pull_layers_in_order {κ} :
      {E : Type κ} (metas : List A) (done : List (ℕ × A))
      → Permᴰ done (enumerate 0 metas)
      → async_pull_layers {E = E} (succeeded done) ≡ ok metas
  unfolding async_pull_layers
  async_pull_layers_in_order {E} metas done p =
      let collected =
        collect-perm [] p (enumerate-Agrees 0 metas) ∙ collect_enumerated 0 [] metas tt in
      rw (try_collect-succeeded {E = E} done, async_pull_layers)
        (ap ok (ap into_values collected ∙ into_values-enumerate 0 metas))
