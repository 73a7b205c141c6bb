-- ===== src/Signature/Sigstore.antt =====
-- image-rs/src/signature/policy/simple/sigstore.rs: where the signatures of an image are kept.
pub mod Laws
use coco_guest_components.Common.{
  ◌≡◌, Bool, true, false, Option, none, some, List, [], ◌∷◌, ◌++◌, ◌&&◌, not, find_map,
  if◌then◌else◌, is_some, Result, ok, err, ensure, ◌>>=◌, ◌>>◌,
}
use coco_guest_components.Text.{Text, ◌=ₜ◌}
use coco_guest_components.Text.Map.{lookup, insert}
use coco_guest_components.External.Oci.{OciClient}
use coco_guest_components.Signature.Failure.{Failure, default_docker_differs, namespace_differs}
use coco_guest_components.Signature.Image.{get_image_namespaces}
use coco_guest_components.Signature.Image.Digest.{Digest}

pub record SigstoreConfigEntry : Type 0 where
  pub sigstore : Text

pub record SigstoreConfig : Type 0 where
  pub default_config : Option SigstoreConfigEntry
  pub docker_namespace_config : Option (List (Text × SigstoreConfigEntry))

-- `SigstoreConfig::default()`
abbrev pub default_sigstore : SigstoreConfig
default_sigstore = record { default_config = none; docker_namespace_config = none }

-- `== SigstoreConfig::default()`
unfoldable pub is_default : SigstoreConfig → Bool
is_default c = not (is_some c.default_config) && not (is_some c.docker_namespace_config)

-- `==` on entries, and on optional ones
abbrev pub entry_eq : SigstoreConfigEntry → SigstoreConfigEntry → Bool
entry_eq a b = a.sigstore =ₜ b.sigstore

abbrev pub option_entry_eq : Option SigstoreConfigEntry → Option SigstoreConfigEntry → Bool
option_entry_eq none none = true
option_entry_eq (some a) (some b) = entry_eq a b
option_entry_eq _ _ = false

-- `{repository}@{algorithm}={value}`
unfoldable pub format_sigstore_name : (oci : OciClient) → oci.Reference → Digest → Text
format_sigstore_name oci r d = oci.repository r ++ b'@' ∷ (d.algorithm ++ b'=' ∷ d.value)

unfoldable pub get_namespace : SigstoreConfig → Text → Option SigstoreConfigEntry
get_namespace c ns = elim c.docker_namespace_config [ none ↦ none | some docker ↦ lookup ns docker ]

-- `SigstoreConfig::insert`
unfoldable pub insert_namespace : SigstoreConfig → Text → SigstoreConfigEntry → SigstoreConfig
insert_namespace c ns e = elim c.docker_namespace_config [
  | some docker ↦ record c { docker_namespace_config = some (insert ns e docker) }
  | none ↦ record c { docker_namespace_config = some (insert ns e []) }
]

-- `for (ns_name, ns_config) in docker_config_map.iter()`
unfoldable pub merge_namespaces :
    List (Text × SigstoreConfigEntry) → SigstoreConfig → Result Failure SigstoreConfig
merge_namespaces [] merged = ok merged
merge_namespaces ((ns, e) ∷ rest) merged =
    let kept = merge_namespaces rest merged in
    let added = merge_namespaces rest (insert_namespace merged ns e) in
    elim (get_namespace merged ns) [
      | some namespace ↦ if entry_eq namespace e then kept else err namespace_differs
      | none ↦ added
    ]

unfoldable pub merge_default : SigstoreConfig → SigstoreConfig → Result Failure SigstoreConfig
merge_default merged input =
    if is_some input.default_config
    then (do
      ensure
          (not (
            is_some merged.default_config
            && not (option_entry_eq input.default_config merged.default_config)))
          default_docker_differs
      ok (record merged { default_config = input.default_config }))
    else ok merged

unfoldable pub merge_docker : SigstoreConfig → SigstoreConfig → Result Failure SigstoreConfig
merge_docker input merged = elim input.docker_namespace_config [
  | none ↦ ok merged
  | some docker ↦ merge_namespaces docker merged
]

-- The caller's configuration is replaced only if the whole merge succeeds.
unfoldable pub update_self : SigstoreConfig → SigstoreConfig → Result Failure SigstoreConfig
update_self c input = do merged ← merge_default c input; merge_docker input merged

module _ (oci : OciClient) where
  unfoldable pub in_namespaces :
      Option (List (Text × SigstoreConfigEntry)) → oci.Reference → Option Text
  in_namespaces none r = none
  in_namespaces (some docker) r =
      find_map (λ ns. elim (lookup ns docker) [ none ↦ none | some e ↦ some e.sigstore ])
        (oci.whole r ∷ get_image_namespaces oci r)

  unfoldable pub base_url : SigstoreConfig → oci.Reference → Option Text
  base_url c r = elim (in_namespaces c.docker_namespace_config r) [
    | some url ↦ some url
    | none ↦ elim c.default_config [ some e ↦ some e.sigstore | none ↦ none ]
  ]
