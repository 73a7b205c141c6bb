-- ===== src/Kbs/ClientState.antt =====
-- attestation-agent/kbs_protocol/src/client/mod.rs and error.rs: the client of a broker, its constants and
-- its errors. The texts of errors are not kept.
use coco_guest_components.Common.{ℕ, Option, none, some, List, [], ◌∷◌, ◌++◌}
use coco_guest_components.Text.{Text, bytes}
use coco_guest_components.External.Broker.{JsonCrate, KeyCrate, Broker}
use coco_guest_components.EventLog.Algorithm.{HashAlgorithm, sha256, sha384, sha512}
use coco_guest_components.ResourceUri.{ResourceUri}
use coco_guest_components.Kbs.Keypair.{KeyError, TeeKey}
use coco_guest_components.Kbs.Token.{Token, TokenError}

pub data KbsError : Type 0 where
  decrypt_response_failed : KeyError → KbsError
  get_evidence_failed get_token_failed http_error kbs_internal_error response_not_deserialized
        rcar_handshake_failed resource_not_found unauthorized invalid_hash_algorithm unexpected_json
        attest_unauthorized auth_unauthorized no_tee_type assertion_failed :
      KbsError
  export_failed : KeyError → KbsError
  bad_token : TokenError → KbsError

-- `KBS_PROTOCOL_VERSION` and `KBS_PREFIX`
abbrev pub kbs_protocol_version : Text
kbs_protocol_version = bytes "0.2.0"

abbrev pub kbs_prefix : Text
kbs_prefix = bytes "kbs/v0"

-- `KBS_GET_RESOURCE_MAX_ATTEMPT`, `RCAR_MAX_ATTEMPT`, and `max_retries` of the attestation
abbrev pub kbs_get_resource_max_attempt : ℕ
kbs_get_resource_max_attempt = 3

abbrev pub rcar_max_attempt : ℕ
rcar_max_attempt = 5

abbrev pub max_retries : ℕ
max_retries = 3

abbrev pub default_hash_algorithm : HashAlgorithm
default_hash_algorithm = sha384

-- `HashAlgorithm::list_all`
abbrev pub list_all : List HashAlgorithm
list_all = sha256 ∷ sha384 ∷ sha512 ∷ []

pub data ClientTee (Tee : Type 0) : Type 0 where
  unitialized : ClientTee Tee
  initializated : Tee → ClientTee Tee

abbrev pub endpoint : Text → Text → Text
endpoint host name = host ++ b'/' ∷ (kbs_prefix ++ b'/' ∷ name)

-- The URL of a resource; the part of a query follows a question mark.
unfoldable pub resource_url : Text → ResourceUri → Text
resource_url host r =
    let remote_url =
      endpoint host (bytes "resource/" ++ (r.repository ++ b'/' ∷ (r.type_name ++ b'/' ∷ r.tag))) in
    elim r.query [ none ↦ remote_url | some q ↦ remote_url ++ b'?' ∷ q ]

module _ {json : JsonCrate} (keys : KeyCrate json) (broker : Broker json) where
  -- `KbsClient`, with the HTTP client and the provider of evidence in the outside world
  pub record KbsClient : Type 0 where
    pub tee : ClientTee broker.Tee
    pub tee_key : TeeKey keys
    pub kbs_host_url : Text
    pub token : Option Token

  -- The client and the outside world.
  pub record World : Type 0 where
    pub client : KbsClient
    pub net : broker.State
