-- ===== src/Signature/Failure.antt =====
-- Why an image is refused: the `anyhow` errors of image-rs/src/signature.
use coco_guest_components.Signature.Image.Digest.{ParseError}
use coco_guest_components.Signature.RefMatch.{MatchError}

pub data Failure : Type 0 where
  bad_digest : ParseError → Failure
  reference_mismatch : MatchError → Failure
  bad_image_reference manifest_digest_mismatch : Failure
  bad_keyring bad_signature wrong_key_length wrong_issuer_length key_id_mismatch : Failure
  no_key_verifies no_literal bad_payload : Failure
  unknown_key_type no_key both_keys bad_base64 resource_unavailable : Failure
  no_sigstore_config no_image_digest no_base_url bad_sigstore_uri unsupported_scheme : Failure
  sigstore_unreadable no_registry_signatures no_signature_satisfies : Failure
  default_docker_differs namespace_differs : Failure
  rule_denied constraints_unsatisfied registry_unavailable : Failure
  rejected no_requirements : Failure
