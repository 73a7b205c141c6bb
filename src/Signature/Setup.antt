-- ===== src/Signature/Setup.antt =====
-- Concrete functions and values for runs of the signature check.
use coco_guest_components.Common.{ℕ, true, false, none, some, List, [], ◌∷◌, ◌++◌}
use coco_guest_components.Text.{Text, bytes}
use coco_guest_components.External.OpenPgp.{OpenPgp}
use coco_guest_components.External.Concrete.{oci, hex, replicate}
use coco_guest_components.Signature.Env.{Env, Cosign}
use coco_guest_components.Signature.Image.{docker}
use coco_guest_components.Signature.RefMatch.{match_repository}
use coco_guest_components.Signature.Payload.{SigPayload}
use coco_guest_components.Signature.Policy.{
  SimpleParameters, CosignParameters, reject, simple_signing, cosign, Policy,
}
use coco_guest_components.Signature.Sigstore.{SigstoreConfig}
use coco_guest_components.Signature.Validator.{SignatureValidator}

abbrev pub app : Text
app = bytes "reg.io:80/team/app:1"

abbrev pub good_digest : Text
good_digest = bytes "sha256:" ++ replicate 64 b'a'

-- A signed message is the digest that it signs; its key is the only one of the ring.
abbrev pub pgp : OpenPgp
pgp = record {
  PacketPile = List ℕ;
  Packet = ℕ;
  PublicKey = ℕ;
  Signature = List ℕ;
  from_bytes = λ b. some b;
  descendants = λ p. p;
  public_key = λ k. some k;
  one_pass_issuer = λ p. some (replicate 8 7);
  literal_body = λ p. some p;
  signature = λ p. some p;
  verify_signature = λ s k. true;
  fingerprint = λ k. replicate 20 k;
}

abbrev pub payload_for : Text → SigPayload
payload_for digest = record {
  critical = record {
    type_name = bytes "atomic container signature";
    image = record { docker_manifest_digest = digest };
    identity = record { docker_reference = app };
  };
  optional = none;
}

abbrev pub sigstore_crate : Cosign
sigstore_crate = record {
  OciReference = Text;
  Layer = Text;
  Verifier = List ℕ;
  from_str = λ t. some t;
  triangulate = λ r. some (r, good_digest);
  trusted_signature_layers = λ d r. some (d ∷ []);
  public_key_verifier = λ k. some k;
  verify_constraints = λ ls v. true;
  simple_signing = λ digest. record {
    type_name = bytes "cosign container image signature";
    docker_manifest_digest = digest;
    docker_reference = app;
    optional = none;
  };
}

abbrev pub env : Env
env = record {
  oci = oci;
  hex = hex;
  pgp = pgp;
  cosign = sigstore_crate;
  payload_of = λ t. some (payload_for t);
  base64_decode = λ t. some (7 ∷ []);
  get_resource = λ t. some (7 ∷ []);
  parse_url = λ t. some (bytes "file", t);
  read_dir = λ p. some (
      some (record { is_dir = true; path = none })
      ∷ some (record { is_dir = false; path = some p })
      ∷ []);
  read = λ p. some good_digest;
  registry_signatures = none;
}

abbrev pub simple : SimpleParameters
simple = record {
  key_type = bytes "GPGKeys";
  key_path = none;
  key_data = some (bytes "a2V5");
  signed_identity = none;
}

abbrev pub by_cosign : CosignParameters
by_cosign = record {
  key_path = some (bytes "kbs:///default/key/1");
  key_data = none;
  signed_identity = some match_repository;
}

abbrev pub policy : Policy
policy = record {
  default = reject ∷ [];
  transports =
      (docker, (bytes "reg.io:80/team", simple_signing simple ∷ cosign by_cosign ∷ []) ∷ []) ∷ [];
}

abbrev pub store : SigstoreConfig
store = record {
  default_config = some (record { sigstore = bytes "file:///var/sigs" });
  docker_namespace_config = none;
}

abbrev pub validator : SignatureValidator
validator = record { policy = policy; simple_signing_sigstore_config = some store }
