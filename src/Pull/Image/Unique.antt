-- ===== src/Pull/Image/Unique.antt =====
-- The layers of an image without those whose digest came before.
use coco_guest_components.Common.{
  ◌≡◌, refl, sym, subst, ap, ◌⊎◌, inl, inr, true, false, List, [], ◌∷◌, Memᴰ, length, Bool-cases,
  arith,
}
use coco_guest_components.Text.{Text, ◌=ₜ◌}
use coco_guest_components.Text.Laws.{text_eq_iff}
use coco_guest_components.External.Host.{OciDescriptor}
use coco_guest_components.Pull.Meta.{Job, jobs, seen, unique_from}

-- Distinct digests, none of them among `before`.
abbrev pub AreNew : List Text → List OciDescriptor → Type 0
AreNew before [] = Unit
AreNew before (l ∷ ls) = (seen l.digest before ≡ false) × AreNew (l.digest ∷ before) ls

-- Some layer of the list has the digest.
abbrev pub HasDigest : List OciDescriptor → Text → Type 0
HasDigest ls d = (l : OciDescriptor) × Memᴰ l ls × (l.digest ≡ d)

abbrev kept : List Text → List Text → List OciDescriptor → List OciDescriptor
kept before ds ls = (unique_from before ds ls).0

module _ (before : List Text) (d : Text) (ds : List Text) (l : OciDescriptor)
    (ls : List OciDescriptor) where
  unique_old :
      seen l.digest before ≡ true → unique_from before ds ls ≡ unique_from before (d ∷ ds) (l ∷ ls)
  unfolding unique_from
  unique_old h = ground arith

  unique_new :
      seen l.digest before ≡ false
      → (
        l ∷ (unique_from (l.digest ∷ before) ds ls).0,
        d ∷ (unique_from (l.digest ∷ before) ds ls).1,
      )
        ≡ unique_from before (d ∷ ds) (l ∷ ls)
  unfolding unique_from
  unique_new h = ground arith

unique-AreNew :
    (before ds : List Text) (ls : List OciDescriptor) → AreNew before (kept before ds ls)
unfolding unique_from
unique-AreNew before [] ls = tt
unique-AreNew before (d ∷ ds) [] = tt
unique-AreNew before (d ∷ ds) (l ∷ ls) = elim (Bool-cases (seen l.digest before)) [
  | inl old ↦
      subst (λ u. AreNew before u.0) (unique_old before d ds l ls old) (unique-AreNew before ds ls)
  | inr new ↦
      subst (λ u. AreNew before u.0) (unique_new before d ds l ls new)
        (new, unique-AreNew (l.digest ∷ before) ds ls)
]

-- A digest of the image is kept, or was there before.
abbrev Found : List Text → List OciDescriptor → Text → Type 0
Found before ls t = (seen t before ≡ true) ⊎ HasDigest ls t

Found-cons :
    (before : List Text) (l : OciDescriptor) (ls : List OciDescriptor) (t : Text)
    → Found (l.digest ∷ before) ls t
    → Found before (l ∷ ls) t
unfolding seen
Found-cons before l ls t (inl h) = elim (Bool-cases (l.digest =ₜ t)) [
  | inl same ↦ inr (l, Memᴰ.head refl, (text_eq_iff l.digest t).0 same)
  | inr other ↦ inl (ground arith)
]
Found-cons before l ls t (inr (x, m, e)) = inr (x, Memᴰ.tail m, e)

unique_complete :
    (before ds : List Text) (ls : List OciDescriptor) (x : OciDescriptor)
    → length ds ≡ length ls
    → Memᴰ x ls
    → Found before (kept before ds ls) x.digest
unique_complete before [] [] x e m = elim m [ ]
unique_complete before [] (l ∷ ls) x e m = absurd (omega (arith, e))
unique_complete before (d ∷ ds) [] x e m = elim m [ ]
unique_complete before (d ∷ ds) (l ∷ ls) x e (Memᴰ.head h) =
    elim (Bool-cases (seen l.digest before)) [
      | inl old ↦ inl (rw h old)
      | inr new ↦
          subst (λ u. Found before u.0 x.digest) (unique_new before d ds l ls new)
            (inr (l, Memᴰ.head refl, ap (λ y. y.digest) (sym h)))
    ]
unique_complete before (d ∷ ds) (l ∷ ls) x e (Memᴰ.tail m) =
    elim (Bool-cases (seen l.digest before)) [
      | inl old ↦
          subst (λ u. Found before u.0 x.digest) (unique_old before d ds l ls old)
            (unique_complete before ds ls x (omega (arith, e)) m)
      | inr new ↦
          subst (λ u. Found before u.0 x.digest) (unique_new before d ds l ls new)
            (Found-cons before l _ x.digest
              (unique_complete (l.digest ∷ before) ds ls x (omega (arith, e)) m))
    ]

-- A layer is kept with the diff id of its own position.
unique_paired :
    (before ds : List Text) (ls : List OciDescriptor) (j : Job)
    → Memᴰ j (jobs (unique_from before ds ls).0 (unique_from before ds ls).1)
    → Memᴰ j (jobs ls ds)
unfolding jobs
unique_paired before [] ls j m = absurd (nothing (unfold unique_from in m))
  where
    nothing : ¬ (Memᴰ j [])
    nothing n = elim n [ ]
unique_paired before (d ∷ ds) [] j m = unfold unique_from in m
unique_paired before (d ∷ ds) (l ∷ ls) j m = elim (Bool-cases (seen l.digest before)) [
  | inl old ↦ Memᴰ.tail (
      unique_paired before ds ls j
        (subst (λ u. Memᴰ j (jobs u.0 u.1)) (sym (unique_old before d ds l ls old)) m))
  | inr new ↦
      cons_case (subst (λ u. Memᴰ j (jobs u.0 u.1)) (sym (unique_new before d ds l ls new)) m)
        (unique_paired (l.digest ∷ before) ds ls j)
]
  where
    cons_case :
        {x : Job} {xs ys : List Job} → Memᴰ j (x ∷ xs) → (Memᴰ j xs → Memᴰ j ys) → Memᴰ j (x ∷ ys)
    cons_case (Memᴰ.head e) f = Memᴰ.head e
    cons_case (Memᴰ.tail n) f = Memᴰ.tail (f n)

not_seen : (t : Text) → ¬ (seen t [] ≡ true)
unfolding seen
not_seen t h = cc

-- Of layers that have as many diff ids: the digests of those that are kept are all different, every
-- digest is among them, and each is kept with a diff id that stands at a position of that layer.
pub unique_layers :
    (ds : List Text) (ls : List OciDescriptor)
    → length ds ≡ length ls
    → AreNew [] (unique_from [] ds ls).0
      × ((x : OciDescriptor) → Memᴰ x ls → HasDigest (unique_from [] ds ls).0 x.digest)
      × ((j : Job)
          → Memᴰ j (jobs (unique_from [] ds ls).0 (unique_from [] ds ls).1)
          → Memᴰ j (jobs ls ds))
unique_layers ds ls e = (
  unique-AreNew [] ds ls,
  λ x m. elim (unique_complete [] ds ls x e m) [
    | inl none_before ↦ absurd (not_seen x.digest none_before)
    | inr found ↦ found
  ],
  unique_paired [] ds ls,
)
