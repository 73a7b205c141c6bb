-- ===== src/Signature/Env.antt =====
-- What a signature check reads from outside: the crates, the key broker, the registry and the file
-- system. One check sees one state of them.
use coco_guest_components.Common.{ℕ, Bool, Option, List}
use coco_guest_components.Text.{Text}
use coco_guest_components.External.Oci.{OciClient}
use coco_guest_components.External.Hex.{Hex}
use coco_guest_components.External.OpenPgp.{OpenPgp}
use coco_guest_components.Signature.Image.Digest.{Digest}
use coco_guest_components.External.Sigstore.{SimpleSigning}
use coco_guest_components.Signature.Payload.{SigPayload}

-- An entry of a directory: whether it is one, and its path if that is UTF-8.
pub record DirEntry : Type 0 where
  pub is_dir : Bool
  pub path : Option Text

-- The crate `sigstore`: `trusted_signature_layers` fetches the layers of an image's signature, and
-- `verify_constraints` says whether the verifier accepts one of them.
pub record Cosign : Type 1 where
  pub OciReference : Type 0
  pub Layer : Type 0
  pub Verifier : Type 0
  pub from_str : Text → Option OciReference
  -- the cosign image and the digest of the source image
  pub triangulate : OciReference → Option (OciReference × Text)
  pub trusted_signature_layers : Text → OciReference → Option (List Layer)
  pub public_key_verifier : List ℕ → Option Verifier
  pub verify_constraints : List Layer → Verifier → Bool
  pub simple_signing : Layer → SimpleSigning

pub record Env : Type 1 where
  pub oci : OciClient
  pub hex : Hex
  pub pgp : OpenPgp
  pub cosign : Cosign
  -- `serde_json::from_str::<SigPayload>`
  pub payload_of : Text → Option SigPayload
  -- `base64::engine::general_purpose::STANDARD.decode`
  pub base64_decode : Text → Option (List ℕ)
  -- `ResourceProvider::get_resource`
  pub get_resource : Text → Option (List ℕ)
  -- `url::Url::parse`, as its scheme and path
  pub parse_url : Text → Option (Text × Text)
  -- `none` in the list is an entry that `next_entry` fails to read
  pub read_dir : Text → Option (List (Option DirEntry))
  pub read : Text → Option (List ℕ)
  -- the registry's signatures, with the feature `signature-simple-xrss`; `none` without it
  pub registry_signatures : Option (oci.Reference → Digest → Option (List (List ℕ)))
