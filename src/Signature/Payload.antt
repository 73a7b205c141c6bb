-- ===== src/Signature/Payload.antt =====
-- image-rs/src/signature/payload/simple_signing.rs: what a signature claims about an image. The
-- field `extra` of `Optional` is kept as the text of its JSON.
pub mod Laws
use coco_guest_components.Common.{Option, none, some, Result, Checked, ok, err, ensure, map_err}
use coco_guest_components.Text.{Text, ◌=ₜ◌}
use coco_guest_components.External.Oci.{OciClient}
use coco_guest_components.External.Sigstore.{SignedOptional, SimpleSigning}
use coco_guest_components.Signature.Failure.{Failure, reference_mismatch, manifest_digest_mismatch}
use coco_guest_components.Signature.RefMatch.{PolicyReqMatchType, matches_docker_reference}

-- `Image` of the payload
pub record SignedImage : Type 0 where
  pub docker_manifest_digest : Text

pub record Identity : Type 0 where
  pub docker_reference : Text

pub record Critical : Type 0 where
  pub type_name : Text
  pub image : SignedImage
  pub identity : Identity

pub record Optional : Type 0 where
  pub creator : Option Text
  pub timestamp : Option Text
  pub extra : Text

pub record SigPayload : Type 0 where
  pub critical : Critical
  pub optional : Option Optional

abbrev pub manifest_digest : SigPayload → Text
manifest_digest p = p.critical.image.docker_manifest_digest

abbrev pub docker_reference : SigPayload → Text
docker_reference p = p.critical.identity.docker_reference

-- `From<sigstore::cosign::payload::SimpleSigning>`
abbrev pub optional_from : Option SignedOptional → Option Optional
optional_from none = none
optional_from (some opt) =
    some (record { creator = opt.creator; timestamp = opt.timestamp; extra = opt.extra })

unfoldable pub from_simple_signing : SimpleSigning → SigPayload
from_simple_signing s = record {
  critical = record {
    type_name = s.type_name;
    image = record { docker_manifest_digest = s.docker_manifest_digest };
    identity = record { docker_reference = s.docker_reference };
  };
  optional = optional_from s.optional;
}

unfoldable pub validate_signed_docker_reference :
    (oci : OciClient) → SigPayload → oci.Reference → PolicyReqMatchType → Checked Failure
validate_signed_docker_reference oci p image_ref match_policy =
    map_err reference_mismatch
      (matches_docker_reference oci match_policy image_ref (docker_reference p))

unfoldable pub validate_signed_docker_manifest_digest : SigPayload → Text → Checked Failure
validate_signed_docker_manifest_digest p ref_manifest_digest =
    ensure (manifest_digest p =ₜ ref_manifest_digest) manifest_digest_mismatch
