-- ===== src/Kbs/Handshake.antt =====
-- The handshake of attestation-agent/kbs_protocol/src/client/rcar_client.rs, step by step.
use coco_guest_components.Common.{
  ℕ, zero, suc, ◌≡◌, refl, ◌⊎◌, false, inl, inr, ◌||◌, Option, some, ◌==◌, ==_iff, Bool-cases,
  Option-cases, Result, ok, ok_or, ok_or-eq-ok, map_err-eq-ok, Result-cases, arith,
}
use coco_guest_components.Text.{Text, bytes}
use coco_guest_components.External.Tee.{Sha2}
use coco_guest_components.External.Broker.{
  JsonCrate, KeyCrate, TeePubKey, SendError, HttpResponse, Challenge, Message, auth_request,
  attestation, Broker,
}
use coco_guest_components.EventLog.Algorithm.{
  HashAlgorithm, sha256, sha384, sha512, digest, algorithm_from_str, to_lowercase,
}
use coco_guest_components.Steps.{lift, after_ok, after_elim}
use coco_guest_components.Kbs.Keypair.{export_pubkey}
use coco_guest_components.Kbs.Token
use coco_guest_components.Kbs.Token.{Token}
use coco_guest_components.Kbs.Client.{
  read_json, ask, send, get_hash_algorithm, tee_type, auth_challenge, attest_from, attest_token,
  hash_runtime_data, report_data, submit, answer, store_token, own_pubkey, handshake_with,
  rcar_handshake,
}
use coco_guest_components.Kbs.ClientState.{
  KbsError, export_failed, response_not_deserialized, get_evidence_failed, kbs_protocol_version,
  list_all, invalid_hash_algorithm, ClientTee, unitialized, initializated, endpoint, World,
}
use coco_guest_components.Kbs.Attested.{
  Answers, Submitted, Selects, Reports, Answered, IsTyped, Attested,
}

ClientTee-cases :
    {T : Type 0} (t : ClientTee T) → ((x : T) × (t ≡ initializated x)) ⊎ (t ≡ unitialized)
ClientTee-cases (initializated x) = inl (x, refl)
ClientTee-cases unitialized = inr refl

module _ {json : JsonCrate} (keys : KeyCrate json) (sha : Sha2) (broker : Broker json) where
  open broker use {
    Tee, is_se, State, get_tee_type, get_evidence, post, challenge_from, token_from,
    runtime_data_to_string,
  }

  abbrev W : Type 0
  W = World keys broker

  pub read_json_ok :
      {A : Type 0} (from : Text → Option A) (r : HttpResponse) (e : KbsError) (w w' : W) {a : A}
      → r.status ≡ 200
      → read_json keys sha broker from r e w ≡ (w', ok a)
      → (w' ≡ w) × Answers keys sha broker from r a
  read_json_ok from r e w w' {a} hs h = elim (Option-cases r.body) [
    | inl absent ↦ ground arith
    | inr (body, present) ↦ elim (Option-cases (from body)) [
      | inl unread ↦ ground arith
      | inr (a', read) ↦ (
        ground arith,
        record { status_ok = hs; body = body; has_body = present; reads = ground arith },
      )
    ]
  ]

  attest_from_ok :
      (left : ℕ) (url : Text) (m : Message json Tee) (s s' : State) (r : HttpResponse)
      → attest_from keys sha broker left url m s ≡ (s', ok r)
      → (u : State) × (post u url m ≡ (s', ok r))
  unfolding attest_from
  attest_from_ok zero url m s s' r h = (s, h)
  attest_from_ok (suc left) url m s s' r h = elim (Result-cases (post s url m).1) [
    | inl (response, sent) ↦ (s, ground arith)
    | inr (e, failed) ↦ elim (Bool-cases (e.is_connect || e.is_request)) [
      | inl retried ↦ attest_from_ok left url m (post s url m).0 s' r (ground arith)
      | inr final ↦ ground arith
    ]
  ]

  tee_type_ok :
      (w v : W) (t : Tee)
      → tee_type keys sha broker w ≡ (v, ok t)
      → (v.client ≡ record w.client { tee = initializated t }) × IsTyped keys sha broker w v.net t
  unfolding tee_type
  tee_type_ok w v t h = elim (ClientTee-cases w.client.tee) [
    | inl (t', told) ↦ (ground arith, IsTyped.known (ground arith) (ground arith))
    | inr untold ↦ elim (Option-cases (get_tee_type w.net).1) [
      | inl no_type ↦ absurd (ground arith)
      | inr (t', typed) ↦ (ground arith, IsTyped.asked untold (ground arith))
    ]
  ]

  get_hash_algorithm-Selects :
      (extra_params : json.Value) (algorithm : HashAlgorithm)
      → get_hash_algorithm keys sha broker extra_params ≡ ok algorithm
      → Selects keys sha broker extra_params algorithm
  unfolding get_hash_algorithm
  get_hash_algorithm-Selects extra_params algorithm h =
      elim (Option-cases (json.get (bytes "selected-hash-algorithm") extra_params)) [
        | inl none_named ↦ Selects.by_default none_named (ground arith)
        | inr (selected, got) ↦ elim (Option-cases (json.as_str selected)) [
          | inl no_text ↦ ground arith
          | inr (name, text) ↦ Selects.by_name selected name got text (
              ok_or-eq-ok (algorithm_from_str (to_lowercase name)) invalid_hash_algorithm
                (ground arith))
        ]
      ]

  digest-Reports :
      (tee : Tee) (tee_pubkey : TeePubKey) (nonce : Text) (a : HashAlgorithm)
      → is_se tee ≡ false
      → Reports keys sha broker tee tee_pubkey nonce a
          (digest sha a (runtime_data_to_string tee_pubkey nonce))
  unfolding digest
  digest-Reports tee tee_pubkey nonce sha256 other = Reports.by_sha256 other
  digest-Reports tee tee_pubkey nonce sha384 other = Reports.by_sha384 other
  digest-Reports tee tee_pubkey nonce sha512 other = Reports.by_sha512 other

  report_data-Reports :
      (tee : Tee) (tee_pubkey : TeePubKey) (nonce : Text) (algorithm : HashAlgorithm)
      → Reports keys sha broker tee tee_pubkey nonce algorithm
          (report_data keys sha broker tee_pubkey nonce tee algorithm)
  unfolding hash_runtime_data
  report_data-Reports tee tee_pubkey nonce algorithm = elim (Bool-cases (is_se tee)) [
    | inl se ↦ rw se (Reports.by_nonce se)
    | inr other ↦ rw other (digest-Reports tee tee_pubkey nonce algorithm other)
  ]

  auth_challenge_ok :
      (r : HttpResponse) (w w' : W) (c : Challenge json)
      → auth_challenge keys sha broker r w ≡ (w', ok c)
      → (w' ≡ w) × Answers keys sha broker challenge_from r c
  unfolding auth_challenge
  auth_challenge_ok r w w' c h = elim (Bool-cases (r.status == 200)) [
    | inl good ↦ read_json_ok challenge_from r _ w w' ((==_iff _ _).0 good) (rw good at h)
    | inr bad ↦ ground arith
  ]

  attest_token_ok :
      (r : HttpResponse) (w w' : W) (t : Token)
      → attest_token keys sha broker r w ≡ (w', ok t)
      → (raw : Text) × (w' ≡ w)
        × Answers keys sha broker token_from r raw
        × (Token.new keys broker raw ≡ ok t)
  unfolding attest_token
  attest_token_ok r w w' t h = elim (Bool-cases (r.status == 200)) [
    | inl good ↦
        let (v, raw, read, made) = after_ok _ _ (rw good at h) in
        let (same, answers) = read_json_ok token_from r _ w v ((==_iff _ _).0 good) read in
        (raw, ground arith, answers, ground arith)
    | inr bad ↦ ground arith
  ]

  send_ok :
      (call : State → State × Result SendError HttpResponse) (w w' : W) (r : HttpResponse)
      → send keys sha broker call w ≡ (w', ok r)
      → (call w.net ≡ (w'.net, ok r)) × (w'.client ≡ w.client)
  send_ok call w w' r h = elim (Result-cases (call w.net).1) [
    | inl (r', good) ↦ (ground arith, ground arith)
    | inr (e, bad) ↦ ground arith
  ]

  ask_ok :
      {A : Type 0} (e : KbsError) (call : State → State × Option A) (w w' : W) (a : A)
      → ask keys sha broker e call w ≡ (w', ok a)
      → (call w.net ≡ (w'.net, some a)) × (w'.client ≡ w.client)
  ask_ok e call w w' a h = elim (Option-cases (call w.net).1) [
    | inl absent ↦ ground arith
    | inr (a', present) ↦ (ground arith, ground arith)
  ]

  store_token_ok :
      (t : Token) (w w' : W)
      → store_token keys sha broker t w ≡ (w', ok tt)
      → w' ≡ record w { client = record w.client { token = some t } }
  unfolding store_token
  store_token_ok t w w' h = cc

  submit_sound :
      (host : Text) (tee_pubkey : TeePubKey) (tee_evidence : json.Value) (w w' : W)
      → submit keys sha broker host tee_pubkey tee_evidence w ≡ (w', ok tt)
      → Submitted keys sha broker host tee_pubkey tee_evidence w w'
  unfolding submit
  submit_sound host tee_pubkey tee_evidence w w' h =
      after_elim (send keys sha broker call w) _ h λ w1 response sent h1.
        after_elim (attest_token keys sha broker response w1) _ h1 λ w2 token made h2.
          let (attests, c1) = send_ok call w w1 response sent in
          let (before, attested) = attest_from_ok 2 url m w.net w1.net response attests in
          let (raw, c2, reads, news) = attest_token_ok response w1 w2 token made in
          let c3 = store_token_ok token w2 w' h2 in
          record {
            before = before;
            response = response;
            sent = ground arith;
            raw = raw;
            token_read = reads;
            token = token;
            token_made = news;
            client_after = ground arith;
          }
    where
      url : Text
      url = endpoint host (bytes "attest")

      m : Message json Tee
      m = attestation tee_pubkey tee_evidence

      call : State → State × Result SendError HttpResponse
      call = attest_from keys sha broker 2 url m

  answer_sound :
      (host : Text) (tee : Tee) (challenge : Challenge json) (w w' : W)
      → answer keys sha broker host tee challenge w ≡ (w', ok tt)
      → Answered keys sha broker host tee challenge w w'
  unfolding answer
  answer_sound host tee challenge w w' h =
      after_elim (lift (get_hash_algorithm keys sha broker challenge.extra_params) w) _ h
        λ w1 algorithm e1 h1. after_elim (own_pubkey keys sha broker w1) _ h1 λ w2 tee_pubkey e2 h2.
          after_elim (ask keys sha broker get_evidence_failed (call tee_pubkey algorithm) w2) _ h2
            λ w3 evidence e3 h3.
              after_elim (lift (ok_or (json.from_str evidence) response_not_deserialized) w3) _ h3
                λ w4 tee_evidence e4 h4.
                  let (given, c3) =
                    ask_ok get_evidence_failed (call tee_pubkey algorithm) w2 w3 evidence e3 in
                  record {
                    algorithm = algorithm;
                    chosen = get_hash_algorithm-Selects challenge.extra_params algorithm (cc);
                    tee_pubkey = tee_pubkey;
                    own_key =
                        map_err-eq-ok export_failed (export_pubkey keys w.client.tee_key) (cc);
                    report = report_data keys sha broker tee_pubkey challenge.nonce tee algorithm;
                    reported = report_data-Reports tee tee_pubkey challenge.nonce algorithm;
                    evidence = evidence;
                    measured = w3.net;
                    given = cc;
                    tee_evidence = tee_evidence;
                    read = ok_or-eq-ok (json.from_str evidence) response_not_deserialized (cc);
                    between = w4;
                    client_same = cc;
                    submitted = submit_sound host tee_pubkey tee_evidence w4 w' h4;
                  }
    where
      call : TeePubKey → HashAlgorithm → State → State × Option Text
      call tee_pubkey algorithm s =
          get_evidence s (report_data keys sha broker tee_pubkey challenge.nonce tee algorithm)

  -- A handshake that succeeds has attested the client. The broker answered a request with a challenge;
  -- the request named the type that the client knew from before or else the one that the platform gave.
  -- The platform gave evidence over report data that is the SHA-2 digest, by the algorithm that the
  -- challenge selects, of the text that has the client's own public key and the nonce; for a platform
  -- of IBM SE it is the nonce alone, so that the key is not bound. The broker answered that key and
  -- that evidence with status 200 and a token. The client keeps this token and the type, and nothing
  -- else of it changes.
  pub rcar_handshake_sound :
      (w w' : W) → rcar_handshake keys sha broker w ≡ (w', ok tt) → Attested keys sha broker w w'
  unfolding rcar_handshake handshake_with
  rcar_handshake_sound w w' h = after_elim (tee_type keys sha broker w) _ h λ w1 tee known h1.
      after_elim (send keys sha broker (call tee) w1) _ h1 λ w2 response sent h2.
        after_elim (auth_challenge keys sha broker response w2) _ h2 λ w3 challenge e3 h3.
          let (posted, c2) = send_ok (call tee) w1 w2 response sent in
          let (same, answered) = auth_challenge_ok response w2 w3 challenge e3 in
          let (c1, typed) = tee_type_ok w w1 tee known in
          record {
            tee = tee;
            typed_at = w1.net;
            typed = typed;
            between = w3;
            response = response;
            auth = ground arith;
            challenge = challenge;
            challenged = answered;
            tee_known = ground arith;
            answered = answer_sound w.client.kbs_host_url tee challenge w3 w' h3;
          }
    where
      call : Tee → State → State × Result SendError HttpResponse
      call tee s =
          post s (endpoint w.client.kbs_host_url (bytes "auth"))
            (auth_request kbs_protocol_version tee list_all)
