-- ===== src/Signature/Policy.antt =====
-- image-rs/src/signature/policy/mod.rs and policy_requirement.rs: requirements by transport and
-- scope.
pub mod Laws
use coco_guest_components.Common.{Option, none, some, List, [], ◌∷◌, find_map}
use coco_guest_components.Text.{Text}
use coco_guest_components.Text.Map.{lookup}
use coco_guest_components.External.Oci.{OciClient}
use coco_guest_components.Signature.Image.{Image, transport_name, get_image_namespaces}
use coco_guest_components.Signature.RefMatch.{PolicyReqMatchType}

pub record CosignParameters : Type 0 where
  pub key_path : Option Text
  pub key_data : Option Text
  pub signed_identity : Option PolicyReqMatchType

pub record SimpleParameters : Type 0 where
  pub key_type : Text
  pub key_path : Option Text
  pub key_data : Option Text
  pub signed_identity : Option PolicyReqMatchType

pub data PolicyReqType : Type 0 where
  accept reject : PolicyReqType
  simple_signing : SimpleParameters → PolicyReqType
  cosign : CosignParameters → PolicyReqType

abbrev pub PolicyTransportScopes : Type 0
PolicyTransportScopes = List (Text × List PolicyReqType)

pub record Policy : Type 0 where
  pub default : List PolicyReqType
  pub transports : List (Text × PolicyTransportScopes)

module _ (oci : OciClient) where
  -- The body of `if let Some(transport_scopes)`; `none` is the fall through to the default.
  unfoldable pub scoped : PolicyTransportScopes → Image oci → Option (List PolicyReqType)
  scoped scopes image = elim (lookup (oci.whole image.reference) scopes) [
    | some reqs ↦ some reqs
    | none ↦ elim (find_map (λ n. lookup n scopes) (get_image_namespaces oci image.reference)) [
      | some reqs ↦ some reqs
      | none ↦ lookup [] scopes
    ]
  ]

  unfoldable pub requirements_for_image : Policy → Image oci → List PolicyReqType
  requirements_for_image policy image = elim (lookup (transport_name oci image) policy.transports) [
    | none ↦ policy.default
    | some scopes ↦ elim (scoped scopes image) [ some reqs ↦ reqs | none ↦ policy.default ]
  ]
