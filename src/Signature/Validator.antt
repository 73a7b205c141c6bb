-- ===== src/Signature/Validator.antt =====
-- image-rs/src/signature/mod.rs: the check of an image against the policy, with both signature
-- schemes enabled.
pub mod Laws
use coco_guest_components.Common.{
  Option, List, [], ◌∷◌, Result, Checked, ok, err, ok_or, map_err, ◌>>=◌, ◌>>◌,
}
use coco_guest_components.Text.{Text}
use coco_guest_components.Signature.Env.{Env}
use coco_guest_components.Signature.Failure.{
  Failure, bad_image_reference, bad_digest, rejected, no_requirements,
}
use coco_guest_components.Signature.Image.{Image, default_with_reference, set_manifest_digest}
use coco_guest_components.Signature.Policy.{
  PolicyReqType, accept, reject, simple_signing, cosign, Policy, requirements_for_image,
}
use coco_guest_components.Signature.Sigstore.{SigstoreConfig}
use coco_guest_components.Signature.Simple.{simple_signing_allows_image}
use coco_guest_components.Signature.Cosign.{cosign_allows_image}

pub record SignatureValidator : Type 0 where
  pub policy : Policy
  pub simple_signing_sigstore_config : Option SigstoreConfig

module _ (env : Env) (validator : SignatureValidator) where
  unfoldable pub check_image_requirement : PolicyReqType → Image env.oci → Checked Failure
  check_image_requirement accept image = ok tt
  check_image_requirement reject image = err rejected
  check_image_requirement (simple_signing inner) image =
      simple_signing_allows_image env validator.simple_signing_sigstore_config inner image
  check_image_requirement (cosign inner) image = cosign_allows_image env inner image

  -- `for req in reqs.iter()`: the first failure ends the check.
  unfoldable pub check_all : List PolicyReqType → Image env.oci → Checked Failure
  check_all [] image = ok tt
  check_all (req ∷ reqs) image = do check_image_requirement req image; check_all reqs image

  unfoldable pub check_nonempty : List PolicyReqType → Image env.oci → Checked Failure
  check_nonempty [] image = err no_requirements
  check_nonempty (req ∷ reqs) image = check_all (req ∷ reqs) image

  unfoldable pub check_image_signature : Text → Text → Checked Failure
  check_image_signature image_reference image_digest = do
    reference ← ok_or (env.oci.try_from image_reference) bad_image_reference
    image ← map_err bad_digest (
        set_manifest_digest env.oci env.hex (default_with_reference env.oci reference) image_digest)
    check_nonempty (requirements_for_image env.oci validator.policy image) image
