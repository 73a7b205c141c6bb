-- ===== src/Signature/Cosign.antt =====
-- image-rs/src/signature/policy/cosign/mod.rs: an image is allowed if the constraints hold for its
-- signature layers and the payload of every layer stands for it.
pub mod Laws
use coco_guest_components.Common.{
  ℕ, Bool, true, false, Option, none, some, List, [], ◌∷◌, map, if◌then◌else◌, Result, Checked, ok,
  err, ensure, ok_or, ◌>>=◌, ◌>>◌,
}
use coco_guest_components.Text.{Text}
use coco_guest_components.Signature.Env.{Env}
use coco_guest_components.Signature.Failure.{
  Failure, no_key, both_keys, resource_unavailable, rule_denied, constraints_unsatisfied,
  registry_unavailable, bad_image_reference, bad_keyring,
}
use coco_guest_components.Signature.Image.{Image}
use coco_guest_components.Signature.Image.Digest.{print}
use coco_guest_components.Signature.RefMatch.{
  PolicyReqMatchType, match_repository, exact_repository,
}
use coco_guest_components.Signature.Policy.{CosignParameters}
use coco_guest_components.Signature.Payload.{
  SigPayload, from_simple_signing, validate_signed_docker_reference,
  validate_signed_docker_manifest_digest,
}

unfoldable pub check_reference_rule_types : Option PolicyReqMatchType → Checked Failure
check_reference_rule_types (some match_repository) = ok tt
check_reference_rule_types (some (exact_repository _)) = ok tt
check_reference_rule_types (some _) = err rule_denied
check_reference_rule_types none = ok tt

module _ (env : Env) where
  -- `match (&self.key_data, &self.key_path)`
  unfoldable pub cosign_key : Option Text → Option Text → Result Failure (List ℕ)
  cosign_key none none = err no_key
  cosign_key none (some key_path) = ok_or (env.get_resource key_path) resource_unavailable
  cosign_key (some key_data) none = ok key_data
  cosign_key (some _) (some _) = err both_keys

  -- `SigPayload::from(layer.simple_signing)`
  abbrev pub payload_of_layer : env.cosign.Layer → SigPayload
  payload_of_layer layer = from_simple_signing (env.cosign.simple_signing layer)

  unfoldable pub verify_signature_and_get_payload :
      Image env.oci → List ℕ → Result Failure (List SigPayload)
  verify_signature_and_get_payload image key = do
    image_ref ← ok_or (env.cosign.from_str (env.oci.whole image.reference)) bad_image_reference
    (cosign_image, source_image_digest) ←
        ok_or (env.cosign.triangulate image_ref) registry_unavailable
    signature_layers ←
        ok_or (env.cosign.trusted_signature_layers source_image_digest cosign_image)
          registry_unavailable
    pub_key_verifier ← ok_or (env.cosign.public_key_verifier key) bad_keyring
    ensure (env.cosign.verify_constraints signature_layers pub_key_verifier) constraints_unsatisfied
    ok (map payload_of_layer signature_layers)

  unfoldable pub validate_identity :
      Option PolicyReqMatchType → SigPayload → Image env.oci → Checked Failure
  validate_identity none payload image = ok tt
  validate_identity (some rule) payload image =
      validate_signed_docker_reference env.oci payload image.reference rule

  -- `for payload in payloads`
  unfoldable pub check_payloads :
      Option PolicyReqMatchType → Image env.oci → List SigPayload → Checked Failure
  check_payloads identity image [] = ok tt
  check_payloads identity image (payload ∷ rest) = do
    validate_identity identity payload image
    validate_signed_docker_manifest_digest payload (print image.manifest_digest)
    check_payloads identity image rest

  -- `CosignParameters::check_image_signature`
  unfoldable pub cosign_allows_image : CosignParameters → Image env.oci → Checked Failure
  cosign_allows_image parameter image = do
    check_reference_rule_types parameter.signed_identity
    key ← cosign_key parameter.key_data parameter.key_path
    payloads ← verify_signature_and_get_payload image key
    check_payloads parameter.signed_identity image payloads
