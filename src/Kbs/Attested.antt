-- ===== src/Kbs/Attested.antt =====
-- What it means that a handshake has attested the client.
use coco_guest_components.Common.{ℕ, ◌≡◌, true, false, Option, none, some, List, Result, ok}
use coco_guest_components.Text.{Text, bytes}
use coco_guest_components.External.Tee.{Sha2}
use coco_guest_components.External.Broker.{
  JsonCrate, KeyCrate, TeePubKey, SendError, HttpResponse, Challenge, auth_request, attestation,
  Broker,
}
use coco_guest_components.EventLog.Algorithm.{
  HashAlgorithm, sha256, sha384, sha512, algorithm_from_str, to_lowercase,
}
use coco_guest_components.Kbs.Keypair.{export_pubkey}
use coco_guest_components.Kbs.Token
use coco_guest_components.Kbs.Token.{Token}
use coco_guest_components.Kbs.ClientState.{
  kbs_protocol_version, default_hash_algorithm, list_all, unitialized, initializated, endpoint,
  World,
}

module _ {json : JsonCrate} (keys : KeyCrate json) (sha : Sha2) (broker : Broker json) where
  open broker use {
    Tee, is_se, State, get_tee_type, get_evidence, post, challenge_from, token_from,
    runtime_data_to_string,
  }

  abbrev W : Type 0
  W = World keys broker

  abbrev pub post_attest :
      Text → TeePubKey → json.Value → State → State × Result SendError HttpResponse
  post_attest host tee_pubkey tee_evidence s =
      post s (endpoint host (bytes "attest")) (attestation tee_pubkey tee_evidence)

  -- An answer of status 200 whose body reads as `a`.
  pub record Answers {A : Type 0} (from : Text → Option A) (r : HttpResponse) (a : A) : Type 0 where
    pub status_ok : r.status ≡ 200
    pub body : Text
    pub has_body : r.body ≡ some body
    pub reads : from body ≡ some a

  -- The evidence was sent, and the client keeps the token of the answer.
  pub record Submitted (host : Text) (tee_pubkey : TeePubKey) (tee_evidence : json.Value) (w w' : W)
      : Type 0 where
    pub before : State
    pub response : HttpResponse
    pub sent : post_attest host tee_pubkey tee_evidence before ≡ (w'.net, ok response)
    pub raw : Text
    pub token_read : Answers token_from response raw
    pub token : Token
    pub token_made : Token.new keys broker raw ≡ ok token
    pub client_after : w'.client ≡ record w.client { token = some token }

  -- The algorithm that a challenge selects by name, or the default where it names none.
  pub data Selects : json.Value → HashAlgorithm → Type 0 where
    by_default :
        {extra_params : json.Value} {algorithm : HashAlgorithm}
        → json.get (bytes "selected-hash-algorithm") extra_params ≡ none
        → algorithm ≡ default_hash_algorithm
        → Selects extra_params algorithm
    by_name :
        {extra_params : json.Value} {algorithm : HashAlgorithm} (selected : json.Value)
        (name : Text)
        → json.get (bytes "selected-hash-algorithm") extra_params ≡ some selected
        → json.as_str selected ≡ some name
        → algorithm_from_str (to_lowercase name) ≡ some algorithm
        → Selects extra_params algorithm

  -- The report data of a platform: the digest of the text that has the client's key and the nonce,
  -- and for IBM SE the nonce itself.
  pub data Reports (tee : Tee) (tee_pubkey : TeePubKey) (nonce : Text)
      : HashAlgorithm → List ℕ → Type 0 where
    by_nonce :
        {algorithm : HashAlgorithm}
        → is_se tee ≡ true
        → Reports tee tee_pubkey nonce algorithm nonce
    by_sha256 :
        is_se tee ≡ false
        → Reports tee tee_pubkey nonce sha256 (sha.sha256 (runtime_data_to_string tee_pubkey nonce))
    by_sha384 :
        is_se tee ≡ false
        → Reports tee tee_pubkey nonce sha384 (sha.sha384 (runtime_data_to_string tee_pubkey nonce))
    by_sha512 :
        is_se tee ≡ false
        → Reports tee tee_pubkey nonce sha512 (sha.sha512 (runtime_data_to_string tee_pubkey nonce))

  -- The challenge was answered with evidence of the platform over this report data, made for the
  -- client's public key, the nonce and the algorithm that the broker chose.
  pub record Answered (host : Text) (tee : Tee) (challenge : Challenge json) (w w' : W)
      : Type 0 where
    pub algorithm : HashAlgorithm
    pub chosen : Selects challenge.extra_params algorithm
    pub tee_pubkey : TeePubKey
    pub own_key : export_pubkey keys w.client.tee_key ≡ ok tee_pubkey
    pub report : List ℕ
    pub reported : Reports tee tee_pubkey challenge.nonce algorithm report
    pub evidence : Text
    pub measured : State
    pub given : get_evidence w.net report ≡ (measured, some evidence)
    pub tee_evidence : json.Value
    pub read : json.from_str evidence ≡ some tee_evidence
    pub between : W
    pub client_same : between.client ≡ w.client
    pub submitted : Submitted host tee_pubkey tee_evidence between w'

  -- The type of the platform: the client knows it, or asks the platform, which moves the world on.
  pub data IsTyped (w : W) : State → Tee → Type 0 where
    known : {tee : Tee} {s : State} → w.client.tee ≡ initializated tee → s ≡ w.net → IsTyped w s tee
    asked :
        {tee : Tee} {s : State}
        → w.client.tee ≡ unitialized
        → get_tee_type w.net ≡ (s, some tee)
        → IsTyped w s tee

  -- The facts of a handshake: the broker gave a challenge to the request, which names the platform's
  -- type, and it was answered.
  pub record Attested (w w' : W) : Type 0 where
    pub tee : Tee
    pub typed_at : State
    pub typed : IsTyped w typed_at tee
    pub between : W
    pub response : HttpResponse
    pub auth :
        post typed_at
          (endpoint w.client.kbs_host_url (bytes "auth"))
          (auth_request kbs_protocol_version tee list_all)
        ≡ (between.net, ok response)
    pub challenge : Challenge json
    pub challenged : Answers challenge_from response challenge
    pub tee_known : between.client ≡ record w.client { tee = initializated tee }
    pub answered : Answered w.client.kbs_host_url tee challenge between w'
