-- ===== src/Signature/Payload/Laws.antt =====
-- When a payload stands for an image.
use coco_guest_components.Common.{◌≡◌, ◌↔◌, ok, map_err, map_err-eq-ok, ap, arith}
use coco_guest_components.Text.{Text}
use coco_guest_components.Text.Laws.{text_eq_iff}
use coco_guest_components.External.Oci.{OciClient}
use coco_guest_components.Signature.Failure.{reference_mismatch}
use coco_guest_components.Signature.RefMatch.{PolicyReqMatchType}
use coco_guest_components.Signature.RefMatch.Laws.{Fits, matches_docker_reference_iff}
use coco_guest_components.Signature.Payload.{
  SigPayload, docker_reference, manifest_digest, validate_signed_docker_reference,
  validate_signed_docker_manifest_digest,
}

pub validate_reference_iff :
    (oci : OciClient) (p : SigPayload) (r : oci.Reference) (policy : PolicyReqMatchType)
    → (validate_signed_docker_reference oci p r policy ≡ ok tt)
      ↔ Fits oci policy r (docker_reference p)
unfolding validate_signed_docker_reference
validate_reference_iff oci p r policy =
    let (to, from) = matches_docker_reference_iff oci policy r (docker_reference p) in
    (
      λ h. to (map_err-eq-ok reference_mismatch _ h),
      λ fits. ap (map_err reference_mismatch) (from fits),
    )

pub validate_digest_iff :
    (p : SigPayload) (digest : Text)
    → (validate_signed_docker_manifest_digest p digest ≡ ok tt) ↔ (manifest_digest p ≡ digest)
unfolding validate_signed_docker_manifest_digest
validate_digest_iff p digest =
    let e = text_eq_iff (manifest_digest p) digest in
    (λ h. ground (arith, e), λ h. ground (arith, e))
