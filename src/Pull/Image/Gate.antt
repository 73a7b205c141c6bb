-- ===== src/Pull/Image/Gate.antt =====
-- The layers that a pull yields, and how each came.
use coco_guest_components.Common.{
  if_holds, ℕ, ◌≡◌, refl, sym, subst, ap, inl, inr, Option, some, List, [], ◌∷◌, ◌==◌, ltb, All,
  Result, ok, err, map_err-eq-ok, Bool-cases, Result-cases, arith,
}
use coco_guest_components.Text.{Text, ◌=ₜ◌}
use coco_guest_components.Text.Map.{lookup, lookup-insert}
use coco_guest_components.Text.Map as Map
use coco_guest_components.Text.Laws.{text_eq_iff}
use coco_guest_components.External.Crypto.{Crypto}
use coco_guest_components.External.Encoding.{Encoding}
use coco_guest_components.External.Host.{OciDescriptor, Host}
use coco_guest_components.Ocicrypt.KeyWrap.{DecryptConfig, KeyWrappers}
use coco_guest_components.Signature.Env.{Env}
use coco_guest_components.Pull.Stream.{Streamed, Unpacks}
use coco_guest_components.Pull.Layers.{
  insert, collect_into, into_values, try_collect, async_pull_layers, enumerate,
}
use coco_guest_components.Pull.Layer.{PullError, LayerMeta, LayerDb, Site, pull_layer_with_retry}
use coco_guest_components.Pull.Layer.Laws.{pull_layer_sound}
use coco_guest_components.Pull.Image.{Client, pull_each, pull_layers}
use coco_guest_components.Pull.Meta.{Job, jobs, extend_layers, layer_failed}

-- A property of all values of a map.
module _ {A : Type 0} (Q : A → Type 0) where
  abbrev AllValues : List (ℕ × A) → Type 0
  AllValues = All (λ p. Q p.1)

  -- Of all results that are no errors.
  abbrev AllOk {κ} : {E : Type κ} → List (ℕ × Result E A) → Type κ
  AllOk [] = Unit
  AllOk ((i, ok a) ∷ rest) = Q a × AllOk rest
  AllOk ((i, err e) ∷ rest) = AllOk rest

  AllOk-cons {κ} :
      {E : Type κ} (i : ℕ) (r : Result E A) (rest : List (ℕ × Result E A))
      → ((a : A) → r ≡ ok a → Q a)
      → AllOk rest
      → AllOk ((i, r) ∷ rest)
  AllOk-cons i (ok a) rest q h = (q a refl, h)
  AllOk-cons i (err e) rest q h = h

  values-insert : (i : ℕ) (a : A) (m : List (ℕ × A)) → Q a → AllValues m → AllValues (insert i a m)
  unfolding insert
  values-insert i a [] q h = (q, tt)
  values-insert i a ((j, b) ∷ m) q (r, h) =
      if_holds AllValues (i == j) _ _ (q, h)
        (if_holds AllValues (ltb i j) ((i, a) ∷ (j, b) ∷ m) _ (q, (r, h))
          (r, values-insert i a m q h))

  values-collect :
      (m done : List (ℕ × A)) → AllValues m → AllValues done → AllValues (collect_into m done)
  unfolding collect_into
  values-collect m [] h k = h
  values-collect m ((i, a) ∷ rest) h (q, k) =
      values-collect (insert i a m) rest (values-insert i a m q h) k

  values-into : (m : List (ℕ × A)) → AllValues m → All Q (into_values m)
  unfolding into_values
  values-into [] h = tt
  values-into ((i, a) ∷ m) (q, h) = (q, values-into m h)

  values-try :
      {E : Type 0} (completions : List (ℕ × Result E A)) {done : List (ℕ × A)}
      → AllOk completions
      → try_collect completions ≡ ok done
      → AllValues done
  unfolding try_collect
  values-try [] {done} h e = let is : [] ≡ done = ground arith in subst AllValues is tt
  values-try ((i, err x) ∷ rest) h e = absurd (cc)
  values-try ((i, ok a) ∷ rest) {done} (q, h) e = elim (Result-cases (try_collect rest)) [
    | inr (x, bad) ↦ absurd (ground arith)
    | inl (more, good) ↦
        let done_is : (i, a) ∷ more ≡ done = ground arith in
        subst AllValues done_is (q, values-try rest h good)
  ]

  -- All that a successful pull yields has the property, if each success has.
  values-pull :
      {E : Type 0} (completions : List (ℕ × Result E A)) {metas : List A}
      → AllOk completions
      → async_pull_layers completions ≡ ok metas
      → All Q metas
  unfolding async_pull_layers
  values-pull completions {metas} h e = elim (Result-cases (try_collect completions)) [
    | inr (x, bad) ↦ absurd (ground arith)
    | inl (done, good) ↦
        let is : into_values (collect_into [] done) ≡ metas = ground arith in
        subst (All Q) is (
          values-into (collect_into [] done)
            (values-collect [] done tt (values-try completions h good)))
  ]

module _ (env : Env) (enc : Encoding) (crypto : Crypto) (host : Host env.oci)
    (wrappers : KeyWrappers) (random_nonce : Option (List ℕ)) where
  -- The layer was unpacked into its store path from content of its digest.
  pub record IsUnpacked (meta : LayerMeta) : Type 0 where
    pub unpacks : Unpacks host meta.store_path meta.uncompressed_digest

  -- Each layer of the database is recorded under its own digest, and was unpacked.
  abbrev pub Layered : LayerDb → Type 0
  Layered db =
      (key : Text) (meta : LayerMeta)
      → lookup key db ≡ some meta
      → (meta.compressed_digest ≡ key) × IsUnpacked meta

  module _ (dc : Option DecryptConfig) (reference : env.oci.Reference) (db : LayerDb)
      (trusted : Layered db) where
    abbrev pull_one : Job → Site host → Site host × Result PullError LayerMeta
    pull_one job site =
        pull_layer_with_retry enc crypto host wrappers dc random_nonce db reference job.layer
          job.diff_id site

    -- A layer that was pulled is a recorded one, or was unpacked now.
    pull_one_ok :
        (job : Job) (site : Site host) (meta : LayerMeta)
        → (pull_one job site).1 ≡ ok meta
        → IsUnpacked meta
    pull_one_ok job site meta e =
        elim (pull_layer_sound enc crypto host wrappers dc random_nonce db reference job.layer
          job.diff_id site (pull_one job site).0 meta (ap (λ r. ((pull_one job site).0, r)) e)) [
            | inl (held, same) ↦ (trusted job.layer.digest meta held).1
            | inr (new, facts) ↦ record {
              unpacks = record {
                input = facts.input;
                media_type = facts.media_type;
                after_unpack = facts.after_unpack;
                streamed =
                    subst
                      (λ d.
                        Streamed host facts.input facts.media_type meta.store_path d
                          facts.after_unpack)
                      (sym facts.uncompressed) facts.streamed;
              };
            }
          ]

    pull_each_ok :
        (js : List (ℕ × Job)) (site : Site host)
        → AllOk IsUnpacked
            (pull_each env enc crypto host wrappers random_nonce dc reference db js site).1
    unfolding pull_each
    pull_each_ok [] site = tt
    pull_each_ok ((i, job) ∷ rest) site =
        AllOk-cons IsUnpacked i (pull_one job site).1 _ (pull_one_ok job site)
          (pull_each_ok rest (pull_one job site).0)

  -- The layers that a pull yields were unpacked.
  pub pull_layers_ok :
      (dc : Option DecryptConfig) (order : List (ℕ × Job) → List (ℕ × Job))
      (reference : env.oci.Reference) (layers : List OciDescriptor) (diff_ids : List Text)
      (w : Client env enc crypto host wrappers random_nonce) (metas : List LayerMeta)
      → Layered w.meta_store.layer_db
      → (pull_layers env enc crypto host wrappers random_nonce dc order reference layers diff_ids
          w).1
        ≡ ok metas
      → All IsUnpacked metas
  unfolding pull_layers
  pull_layers_ok dc order reference layers diff_ids w metas trusted e =
      let js = order (enumerate 0 (jobs layers diff_ids)) in
      let db = w.meta_store.layer_db in
      values-pull IsUnpacked
        (pull_each env enc crypto host wrappers random_nonce dc reference db js w.site).1
        (pull_each_ok dc reference db trusted js w.site) (map_err-eq-ok layer_failed _ e)

  Layered-insert :
      (l : LayerMeta) (db : LayerDb)
      → IsUnpacked l
      → Layered db
      → Layered (Map.insert l.compressed_digest l db)
  Layered-insert l db good h key meta found = elim (Bool-cases (l.compressed_digest =ₜ key)) [
    | inl same ↦
        let is : l ≡ meta = ground (arith, lookup-insert l.compressed_digest key l db) in
        subst (λ m. (m.compressed_digest ≡ key) × IsUnpacked m) is ((text_eq_iff _ _).0 same, good)
    | inr other ↦ h key meta (ground (arith, lookup-insert l.compressed_digest key l db))
  ]

  -- Recording them keeps the database trustworthy.
  pub Layered-extend :
      (ls : List LayerMeta) (db : LayerDb)
      → All IsUnpacked ls
      → Layered db
      → Layered (extend_layers ls db)
  unfolding extend_layers
  Layered-extend [] db good h = h
  Layered-extend (l ∷ ls) db (g, good) h =
      Layered-extend ls (Map.insert l.compressed_digest l db) good (Layered-insert l db g h)
