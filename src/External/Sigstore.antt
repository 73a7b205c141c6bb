-- ===== src/External/Sigstore.antt =====
-- The crate `sigstore`: what a signature layer of an image was signed for.
use coco_guest_components.Common.{Option}
use coco_guest_components.Text.{Text}

-- `cosign::payload::Optional`; the number and the JSON members are kept as texts.
pub record SignedOptional : Type 0 where
  pub creator : Option Text
  pub timestamp : Option Text
  pub extra : Text

-- `cosign::payload::SimpleSigning`, with the members of `critical` in one record
pub record SimpleSigning : Type 0 where
  pub type_name : Text
  pub docker_manifest_digest : Text
  pub docker_reference : Text
  pub optional : Option SignedOptional
