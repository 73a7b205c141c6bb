-- ===== src/Signature/Sigstore/Laws.antt =====
-- Merging of configurations.
use coco_guest_components.Common.{
  ◌≡◌, refl, ◌∙◌, Option, none, some, List, [], ◌∷◌, ok, if◌then◌else◌, Option-cases, >>=-eq-ok,
  inl, inr, arith, get_or, Memᴰ, true,
}
use coco_guest_components.Text.{Text, ◌=ₜ◌}
use coco_guest_components.Text.Laws.{text_eq_iff}
use coco_guest_components.Text.Map.{lookup, lookup-insert}
use coco_guest_components.Signature.Sigstore.{
  SigstoreConfig, SigstoreConfigEntry, entry_eq, get_namespace, insert_namespace, merge_namespaces,
  merge_default, merge_docker, update_self,
}

-- The first that is there.
abbrev pub or_else {ℓ} : {A : Type ℓ} → Option A → Option A → Option A
or_else none o = o
or_else (some a) o = some a

abbrev pub namespaces : SigstoreConfig → List (Text × SigstoreConfigEntry)
namespaces c = get_or [] c.docker_namespace_config

get_namespace-insert :
    (c : SigstoreConfig) (ns j : Text) (e : SigstoreConfigEntry)
    → get_namespace (insert_namespace c ns e) j ≡ (if ns =ₜ j then some e else get_namespace c j)
unfolding get_namespace insert_namespace lookup
get_namespace-insert c ns j e = elim (Option-cases c.docker_namespace_config) [
  | inl fresh ↦ ground (arith, fresh, lookup-insert ns j e [])
  | inr (docker, kept) ↦ ground (arith, kept, lookup-insert ns j e docker)
]

default-insert :
    (c : SigstoreConfig) (ns : Text) (e : SigstoreConfigEntry)
    → (insert_namespace c ns e).default_config ≡ c.default_config
unfolding insert_namespace
default-insert c ns e = ground arith

merge_namespaces_lem :
    (input : List (Text × SigstoreConfigEntry)) (c m : SigstoreConfig) (j : Text)
    → merge_namespaces input c ≡ ok m
    → (get_namespace m j ≡ or_else (get_namespace c j) (lookup j input))
      × (m.default_config ≡ c.default_config)
unfolding merge_namespaces lookup
merge_namespaces_lem [] c m j h = ground arith
merge_namespaces_lem ((ns, e) ∷ rest) c m j h = elim (Option-cases (get_namespace c ns)) [
  | inl fresh ↦
      let (found, kept) =
        merge_namespaces_lem rest (insert_namespace c ns e) m j (ground (arith, fresh)) in
      ground (
        arith,
        found,
        kept,
        fresh,
        get_namespace-insert c ns j e,
        default-insert c ns e,
        text_eq_iff ns j,
      )
  | inr (e', old) ↦
      let merged : merge_namespaces rest c ≡ ok m = ground (arith, old) in
      let (found, kept) = merge_namespaces_lem rest c m j merged in
      ground (arith, found, kept, old, text_eq_iff ns j)
]

entry_eq_sound : (a b : SigstoreConfigEntry) → entry_eq a b ≡ true → a ≡ b
entry_eq_sound a b h = ground (arith, text_eq_iff a.sigstore b.sigstore)

-- Every entry of the input is in force afterwards.
merge_keeps_input :
    (input : List (Text × SigstoreConfigEntry)) (c m : SigstoreConfig) {j : Text}
    {e : SigstoreConfigEntry}
    → Memᴰ (j, e) input
    → merge_namespaces input c ≡ ok m
    → get_namespace m j ≡ some e
unfolding merge_namespaces
merge_keeps_input [] c m absent h = elim absent [ ]
merge_keeps_input ((ns, v) ∷ rest) c m {j} {e} (Memᴰ.head same) h =
    let (found, _) = merge_namespaces_lem ((ns, v) ∷ rest) c m j h in
    elim (Option-cases (get_namespace c ns)) [
      | inl fresh ↦ unfold lookup in ground (arith, found, fresh, same, text_eq_iff j ns)
      | inr (e', old) ↦
          let equal : entry_eq e' v ≡ true = ground (arith, old) in
          let agree = entry_eq_sound e' v equal in ground (arith, found, old, same, agree)
    ]
merge_keeps_input ((ns, v) ∷ rest) c m (Memᴰ.tail later) h =
    elim (Option-cases (get_namespace c ns)) [
      | inl fresh ↦ merge_keeps_input rest (insert_namespace c ns v) m later (ground (arith, fresh))
      | inr (e', old) ↦ merge_keeps_input rest c m later (ground (arith, old))
    ]

merge_default_lem :
    (c i m : SigstoreConfig)
    → merge_default c i ≡ ok m
    → (m.default_config ≡ or_else i.default_config c.default_config)
      × ((e : SigstoreConfigEntry) → c.default_config ≡ some e → m.default_config ≡ some e)
      × (m.docker_namespace_config ≡ c.docker_namespace_config)
unfolding merge_default
merge_default_lem c i m h = elim (Option-cases i.default_config) [
  | inl absent ↦ (ground (arith, absent), λ e given. ground (arith, absent), ground (arith, absent))
  | inr (d, present) ↦ elim (Option-cases c.default_config) [
    | inl fresh ↦ (
      ground (arith, present, fresh),
      λ e given. absurd (ground (arith, fresh, given)),
      ground (arith, present, fresh),
    )
    | inr (d', old) ↦
        let agree : d ≡ d' = entry_eq_sound d d' (ground (arith, present, old)) in
        (
          ground (arith, present, old),
          λ e given. ground (arith, present, old, given, agree),
          ground (arith, present, old),
        )
  ]
]

get_namespace-same :
    (c d : SigstoreConfig) (ns : Text)
    → d.docker_namespace_config ≡ c.docker_namespace_config
    → get_namespace d ns ≡ get_namespace c ns
unfolding get_namespace
get_namespace-same c d ns h = ground arith

or_else-none {ℓ} : {A : Type ℓ} (o : Option A) → or_else o none ≡ o
or_else-none none = refl
or_else-none (some a) = refl

-- What a configuration says after a merge.
pub record Merged (c i m : SigstoreConfig) : Type 0 where
  pub default_is : m.default_config ≡ or_else i.default_config c.default_config
  pub default_kept :
      (e : SigstoreConfigEntry) → c.default_config ≡ some e → m.default_config ≡ some e
  pub namespace_is :
      (ns : Text) → get_namespace m ns ≡ or_else (get_namespace c ns) (lookup ns (namespaces i))
  pub input_kept :
      (ns : Text) (e : SigstoreConfigEntry)
      → Memᴰ (ns, e) (namespaces i)
      → get_namespace m ns ≡ some e

Merged-docker :
    (c i d m : SigstoreConfig)
    → (d.default_config ≡ or_else i.default_config c.default_config)
      × ((e : SigstoreConfigEntry) → c.default_config ≡ some e → d.default_config ≡ some e)
      × (d.docker_namespace_config ≡ c.docker_namespace_config)
    → merge_docker i d ≡ ok m
    → Merged c i m
unfolding merge_docker
Merged-docker c i d m (is, kept, docker) h = elim (Option-cases i.docker_namespace_config) [
  | inl absent ↦
      let same : d ≡ m = ground (arith, absent) in
      record {
        default_is = ground (arith, same, is);
        default_kept = λ e given. ground (arith, same, kept e given);
        namespace_is = λ ns.
            unfold lookup in
            ground (
              arith,
              same,
              absent,
              get_namespace-same c d ns docker,
              or_else-none (get_namespace c ns),
            );
        input_kept = λ ns e listed. elim (rw absent at listed) [ ];
      }
  | inr (entries, given) ↦
      let merged : merge_namespaces entries d ≡ ok m = ground (arith, given) in
      let lem = λ (j : Text). merge_namespaces_lem entries d m j merged in
      record {
        default_is = (lem []).1 ∙ is;
        default_kept = λ e old. (lem []).1 ∙ kept e old;
        namespace_is = λ ns. ground (arith, given, lem ns, get_namespace-same c d ns docker);
        input_kept = λ ns e listed. merge_keeps_input entries d m (rw given at listed) merged;
      }
]

-- A merge that succeeds has every entry of both configurations in force: nothing that either says,
-- of the default or of a namespace, is changed by the other.
pub update_self_lem : (c i m : SigstoreConfig) → update_self c i ≡ ok m → Merged c i m
unfolding update_self
update_self_lem c i m h =
    let (d, first, rest) = >>=-eq-ok (merge_default c i) (merge_docker i) h in
    Merged-docker c i d m (merge_default_lem c i d first) rest
