-- ===== src/Kbs/Client.antt =====
-- attestation-agent/kbs_protocol/src/client/rcar_client.rs: the client that attests itself to a broker
-- by the handshake of request, challenge, attestation and response. The clock's time is an argument,
-- the pauses between attempts are left out, and the texts of errors are not kept.
use coco_guest_components.Common.{
  ℕ, zero, suc, ◌-◌, ◌||◌, Option, none, some, List, ◌==◌, if◌then◌else◌, Result, ok, err, ok_or,
  map_err,
}
use coco_guest_components.Text.{Text, bytes}
use coco_guest_components.External.Tee.{Sha2}
use coco_guest_components.External.Broker.{
  JsonCrate, KeyCrate, TeePubKey, SendError, HttpResponse, Challenge, Message, auth_request,
  attestation, Broker,
}
use coco_guest_components.EventLog.Algorithm.{
  HashAlgorithm, digest, algorithm_from_str, to_lowercase,
}
use coco_guest_components.ResourceUri.{ResourceUri}
use coco_guest_components.Steps.{Steps, ◌>>=◌, lift}
use coco_guest_components.Kbs.Keypair.{TeeKey, export_pubkey, decrypt_response}
use coco_guest_components.Kbs.Token
use coco_guest_components.Kbs.Token.{Token, TokenError, check_valid}
use coco_guest_components.Kbs.ClientState.{
  KbsError, kbs_protocol_version, kbs_get_resource_max_attempt, rcar_max_attempt, max_retries,
  default_hash_algorithm, list_all, endpoint, resource_url, World, decrypt_response_failed,
  get_evidence_failed, http_error, kbs_internal_error, response_not_deserialized,
  rcar_handshake_failed, resource_not_found, unauthorized, invalid_hash_algorithm, unexpected_json,
  attest_unauthorized, auth_unauthorized, no_tee_type, assertion_failed, export_failed, bad_token,
  unitialized, initializated,
}

module _ {json : JsonCrate} (keys : KeyCrate json) (sha : Sha2) (broker : Broker json) where
  open broker use {
    Tee, is_se, State, get_tee_type, get_evidence, post, fetch, challenge_from, token_from,
    response_from, error_information_from, runtime_data_to_string,
  }

  -- A step that may change the world, and may fail after it has.
  abbrev pub M : Type 0 → Type 0
  M A = Steps (World keys broker) KbsError A

  -- An answer's body, read as JSON.
  abbrev pub read_json : {A : Type 0} → (Text → Option A) → HttpResponse → KbsError → M A
  read_json from response e =
      lift (elim response.body [ none ↦ err e | some body ↦ ok_or (from body) e ])

  -- A call of the outside world.
  abbrev pub ask : {A : Type 0} → KbsError → (State → State × Option A) → M A
  ask e call w = let (net, o) = call w.net in (record w { net = net }, ok_or o e)

  abbrev pub send : (State → State × Result SendError HttpResponse) → M HttpResponse
  send call w = let (net, r) = call w.net in (record w { net = net }, map_err (λ _. http_error) r)

  unfoldable pub get_hash_algorithm : json.Value → Result KbsError HashAlgorithm
  get_hash_algorithm extra_params = elim (json.get (bytes "selected-hash-algorithm") extra_params) [
    | none ↦ ok default_hash_algorithm
    | some selected ↦ elim (json.as_str selected) [
      | none ↦ err unexpected_json
      | some name ↦ ok_or (algorithm_from_str (to_lowercase name)) invalid_hash_algorithm
    ]
  ]

  -- The platform is asked for its type at the first handshake only.
  unfoldable pub tee_type : M Tee
  tee_type w = elim w.client.tee [
    | initializated t ↦ (w, ok t)
    | unitialized ↦
        let (net, o) = get_tee_type w.net in
        elim o [
          | none ↦ (record w { net = net }, err no_tee_type)
          | some t ↦
              (record { client = record w.client { tee = initializated t }; net = net }, ok t)
        ]
  ]

  unfoldable pub auth_challenge : HttpResponse → M (Challenge json)
  auth_challenge response w =
      if response.status == 200
      then read_json challenge_from response response_not_deserialized w
      else if response.status == 401
      then (w, err auth_unauthorized)
      else (w, err kbs_internal_error)

  -- The attestation is sent again while it cannot be sent; `left` more times are allowed.
  unfoldable pub attest_from :
      ℕ → Text → Message json Tee → State → State × Result SendError HttpResponse
  attest_from zero url m s = post s url m
  attest_from (suc left) url m s =
      let (s', r) = post s url m in
      let again = attest_from left url m s' in
      elim r [
        | ok response ↦ (s', ok response)
        | err e ↦ if e.is_connect || e.is_request then again else (s', err e)
      ]

  -- The token of an answer to the attestation.
  unfoldable pub attest_token : HttpResponse → M Token
  attest_token response w =
      if response.status == 200
      then (read_json token_from response response_not_deserialized >>= λ raw.
            lift (map_err bad_token (Token.new keys broker raw)))
          w
      else if response.status == 401
      then (w, err attest_unauthorized)
      else (w, err kbs_internal_error)

  unfoldable pub hash_runtime_data : Text → Text → Tee → HashAlgorithm → List ℕ
  hash_runtime_data runtime_data nonce tee algorithm =
      if is_se tee then nonce else digest sha algorithm runtime_data

  unfoldable pub store_token : Token → M (Unit {0})
  store_token token w = (record w { client = record w.client { token = some token } }, ok tt)

  abbrev pub own_pubkey : M TeePubKey
  own_pubkey w = (w, map_err export_failed (export_pubkey keys w.client.tee_key))

  -- The parts of the handshake with the broker at a host; the endpoints are texts that are made of the
  -- host. The last part sends the evidence and keeps the token.
  unfoldable pub submit : Text → TeePubKey → json.Value → M (Unit {0})
  submit host tee_pubkey tee_evidence = do
    attest_response ← send (
        attest_from (max_retries - 1) (endpoint host (bytes "attest"))
          (attestation tee_pubkey tee_evidence))
    token ← attest_token attest_response
    store_token token

  abbrev pub report_data : TeePubKey → Text → Tee → HashAlgorithm → List ℕ
  report_data tee_pubkey nonce tee algorithm =
      hash_runtime_data (runtime_data_to_string tee_pubkey nonce) nonce tee algorithm

  -- The challenge is answered.
  unfoldable pub answer : Text → Tee → Challenge json → M (Unit {0})
  answer host tee challenge = do
    algorithm ← lift (get_hash_algorithm challenge.extra_params)
    tee_pubkey ← own_pubkey
    evidence ←
        ask get_evidence_failed
          (λ s. get_evidence s (report_data tee_pubkey challenge.nonce tee algorithm))
    tee_evidence ← lift (ok_or (json.from_str evidence) response_not_deserialized)
    submit host tee_pubkey tee_evidence

  unfoldable pub handshake_with : Text → M (Unit {0})
  handshake_with host = do
    tee ← tee_type
    response ← send (λ s.
        post s (endpoint host (bytes "auth")) (auth_request kbs_protocol_version tee list_all))
    challenge ← auth_challenge response
    answer host tee challenge

  unfoldable pub rcar_handshake : M (Unit {0})
  rcar_handshake w = handshake_with w.client.kbs_host_url w

  -- `retry_count` counts from 1; `left` more handshakes are allowed.
  unfoldable pub repeat_from : ℕ → M (Unit {0})
  repeat_from zero w =
      let (w', r) = rcar_handshake w in (w', map_err (λ _. rcar_handshake_failed) r)
  repeat_from (suc left) w =
      let (w', r) = rcar_handshake w in
      let again = repeat_from left w' in elim r [ ok _ ↦ (w', ok tt) | err _ ↦ again ]

  unfoldable pub repeat_rcar_handshake : M (Unit {0})
  repeat_rcar_handshake = repeat_from (rcar_max_attempt - 1)

  -- `assert!(self.token.is_some())`, and the result
  unfoldable pub current_token : M (Token × TeeKey keys)
  current_token w = elim w.client.token [
    | none ↦ (w, err assertion_failed)
    | some token ↦ (w, ok (token, w.client.tee_key))
  ]

  abbrev pub renewed_token : M (Token × TeeKey keys)
  renewed_token = do _ ← repeat_rcar_handshake; current_token

  unfoldable pub get_token : ℕ → M (Token × TeeKey keys)
  get_token now w = elim w.client.token [
    | none ↦ renewed_token w
    | some token ↦ elim (check_valid now token) [ err _ ↦ renewed_token w | ok _ ↦ current_token w ]
  ]

  -- The payload of an answer that has the resource.
  unfoldable pub open_response : HttpResponse → M (List ℕ)
  open_response response = do
    body ← read_json response_from response response_not_deserialized
    λ w. (w, map_err decrypt_response_failed (decrypt_response keys w.client.tee_key body))

  -- The body of an answer that refuses must be readable; then the answer means an error.
  abbrev pub refused : {A : Type 0} → HttpResponse → M A → M A
  refused response rest = do
    _ ← read_json error_information_from response response_not_deserialized
    rest

  -- A new handshake, whose error is one of the request for the resource.
  abbrev pub authenticate_again : M (Unit {0})
  authenticate_again w =
      let (w', r) = rcar_handshake w in (w', map_err (λ _. rcar_handshake_failed) r)

  -- The loop of `get_resource`, with the attempts that are left.
  unfoldable pub get_from : ℕ → Text → M (List ℕ)
  get_from zero url w = (w, err unauthorized)
  get_from (suc left) url w =
      let (w₁, r) = send (λ s. fetch s url none) w in
      let next = λ (v : World keys broker). get_from left url v in
      elim r [
        | err e ↦ (w₁, err e)
        | ok response ↦
            if response.status == 200
            then open_response response w₁
            else if response.status == 401
            then refused response (authenticate_again >>= λ _. next) w₁
            else if response.status == 404
            then refused response (lift (err resource_not_found)) w₁
            else refused response (lift (err kbs_internal_error)) w₁
      ]

  unfoldable pub get_resource : ResourceUri → M (List ℕ)
  get_resource uri w =
      get_from kbs_get_resource_max_attempt (resource_url w.client.kbs_host_url uri) w
