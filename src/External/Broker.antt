-- ===== src/External/Broker.antt =====
-- What the client of a key broker takes from outside: JSON values (`serde_json`), asymmetric keys and
-- authenticated decryption (the primitives of the crate `crypto` and of `kbs_types`), the HTTP client
-- (`reqwest`), and the provider of evidence.
use coco_guest_components.Common.{ℕ, ◌+◌, ◌≡◌, Bool, Option, List, Result}
use coco_guest_components.Text.{Text}
use coco_guest_components.EventLog.Algorithm.{HashAlgorithm}

pub record JsonCrate : Type 1 where
  pub Value : Type 0
  -- `value.get(key)`
  pub get : Text → Value → Option Value
  pub as_str : Value → Option Text
  -- `from_str`
  pub from_str : Text → Option Value

pub data PaddingMode : Type 0 where
  oaep pkcs1v15 : PaddingMode

-- The members of `other_fields` besides `epk` are not read.
pub record ProtectedHeader (json : JsonCrate) : Type 0 where
  pub alg : Text
  pub epk : Option json.Value

pub record KbsResponse (json : JsonCrate) : Type 0 where
  pub header : ProtectedHeader json
  pub encrypted_key : List ℕ
  pub iv : List ℕ
  pub ciphertext : List ℕ
  pub tag : List ℕ

pub record KeyCrate (json : JsonCrate) : Type 1 where
  pub RsaKeyPair : Type 0
  pub EcKeyPair : Type 0
  pub rsa_n : RsaKeyPair → List ℕ
  pub rsa_e : RsaKeyPair → List ℕ
  pub rsa_decrypt : RsaKeyPair → PaddingMode → List ℕ → Option (List ℕ)
  pub ec_x : EcKeyPair → Option (List ℕ)
  pub ec_y : EcKeyPair → Option (List ℕ)
  -- `unwrap_key(wrapped, x, y, EcdhEsA256Kw)`
  pub ec_unwrap_key : EcKeyPair → List ℕ → List ℕ → List ℕ → Option (List ℕ)
  -- `URL_SAFE_NO_PAD`
  pub url_safe_encode : List ℕ → Text
  pub url_safe_decode : Text → Option (List ℕ)
  pub generate_aad : ProtectedHeader json → Option (List ℕ)
  -- key, ciphertext, initialisation vector, associated data, tag
  pub aes256gcm_decrypt : List ℕ → List ℕ → List ℕ → List ℕ → List ℕ → Option (List ℕ)

pub data TeePubKey : Type 0 where
  rsa_key : (alg k_mod k_exp : Text) → TeePubKey
  ec_key : (crv alg x y : Text) → TeePubKey

pub record SendError : Type 0 where
  pub is_connect : Bool
  pub is_request : Bool

-- No body is one that could not be received.
pub record HttpResponse : Type 0 where
  pub status : ℕ
  pub body : Option Text

pub record Challenge (json : JsonCrate) : Type 0 where
  pub nonce : Text
  pub extra_params : json.Value

pub record Claims : Type 0 where
  pub expires_at : Option ℕ
  pub invalid_before : Option ℕ

-- A request body, before it is serialised.
pub data Message (json : JsonCrate) (Tee : Type 0) : Type 0 where
  auth_request : (version : Text) (tee : Tee) (supported : List HashAlgorithm) → Message json Tee
  attestation : (tee_pubkey : TeePubKey) (tee_evidence : json.Value) → Message json Tee

-- `State` is all of the outside world; every call may change it.
pub record Broker (json : JsonCrate) : Type 1 where
  pub Tee : Type 0
  pub is_se : Tee → Bool
  pub State : Type 0
  pub get_tee_type : State → State × Option Tee
  pub get_evidence : State → List ℕ → State × Option Text
  pub post : State → Text → Message json Tee → State × Result SendError HttpResponse
  -- a GET request, with the bearer token if there is one
  pub fetch : State → Text → Option Text → State × Result SendError HttpResponse
  -- `from_slice` at the types of the answers
  pub challenge_from : Text → Option (Challenge json)
  pub token_from : Text → Option Text
  pub response_from : Text → Option (KbsResponse json)
  pub error_information_from : Text → Option (Unit {0})
  pub claims_from : List ℕ → Option Claims
  -- `to_string` of the object with the members `tee-pubkey` and `nonce`
  pub runtime_data_to_string : TeePubKey → Text → Text

-- A counter of the requests that have been sent.
pub record Counter {json : JsonCrate} (b : Broker json) : Type 0 where
  pub sent : b.State → ℕ
  pub sent-post :
      (s : b.State) (url : Text) (m : Message json b.Tee) → sent (b.post s url m).0 ≡ sent s + 1
  pub sent-fetch :
      (s : b.State) (url : Text) (bearer : Option Text) → sent (b.fetch s url bearer).0 ≡ sent s + 1
  pub sent-get_tee_type : (s : b.State) → sent (b.get_tee_type s).0 ≡ sent s
  pub sent-get_evidence : (s : b.State) (d : List ℕ) → sent (b.get_evidence s d).0 ≡ sent s
