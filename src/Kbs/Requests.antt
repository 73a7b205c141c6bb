-- ===== src/Kbs/Requests.antt =====
-- What the client's requests send, and what they give.
use coco_guest_components.Common.{
  ℕ, zero, suc, ◌+◌, ◌*◌, ◌≤◌, ◌≡◌, inl, inr, Option, none, Result, ok_or, Result-cases, arith,
}
use coco_guest_components.Text.{Text, bytes}
use coco_guest_components.External.Tee.{Sha2}
use coco_guest_components.External.Broker.{
  JsonCrate, KeyCrate, TeePubKey, SendError, HttpResponse, Challenge, Message, Broker, Counter,
  auth_request, attestation,
}
use coco_guest_components.EventLog.Algorithm.{HashAlgorithm}
use coco_guest_components.ResourceUri.{ResourceUri}
use coco_guest_components.Steps.{◌>>=◌, lift, after_adds}
use coco_guest_components.Kbs.Token.{Token}
use coco_guest_components.Kbs.Client.{
  report_data, M, read_json, ask, send, get_hash_algorithm, tee_type, auth_challenge, attest_from,
  attest_token, submit, answer, store_token, own_pubkey, handshake_with, rcar_handshake,
  repeat_from, repeat_rcar_handshake, current_token, get_token, open_response, get_from,
  get_resource,
}
use coco_guest_components.Kbs.ClientState.{
  KbsError, response_not_deserialized, get_evidence_failed, endpoint, kbs_protocol_version,
  list_all, World, resource_url,
}

module _ {json : JsonCrate} (keys : KeyCrate json) (sha : Sha2) (broker : Broker json)
    (counter : Counter broker) where
  open broker use {Tee, State, post, fetch, get_evidence}
  open counter use {sent}

  abbrev W : Type 0
  W = World keys broker

  -- The client's key and broker stay, and at most `k` requests are sent.
  pub record Within (k : ℕ) (w w' : W) : Type 0 where
    pub same_key : w'.client.tee_key ≡ w.client.tee_key
    pub same_host : w'.client.kbs_host_url ≡ w.client.kbs_host_url
    pub few : sent w'.net ≤ k + sent w.net

  Within-more : (j k : ℕ) (w v : W) → Within j w v → Within (j + k) w v
  Within-more j k w v h = ground arith

  Within-join : (j k : ℕ) (w v u : W) → Within j w v → Within k v u → Within (j + k) w u
  Within-join j k w v u h i = ground arith

  then-Within :
      {A B : Type 0} (j k : ℕ) (w : W) (m : M keys sha broker A) (f : A → M keys sha broker B)
      → Within j w (m w).0
      → ((a : A) (v : W) → Within k v (f a v).0)
      → Within (j + k) w ((m >>= f) w).0
  then-Within j k w m f first rest =
      after_adds Within j k w (m w) f (Within-more j k w) (Within-join j k w) first rest

  tee_type-Within : (w : W) → Within 0 w (tee_type keys sha broker w).0
  unfolding tee_type
  tee_type-Within w = ground (arith, counter.sent-get_tee_type w.net)

  read-Within :
      {A : Type 0} (from : Text → Option A) (r : HttpResponse) (e : KbsError) (w : W)
      → Within 0 w (read_json keys sha broker from r e w).0
  read-Within from r e w = ground arith

  auth_challenge-Within :
      (r : HttpResponse) (w : W) → Within 0 w (auth_challenge keys sha broker r w).0
  unfolding auth_challenge
  auth_challenge-Within r w = ground arith

  attest_token-Within : (r : HttpResponse) (w : W) → Within 0 w (attest_token keys sha broker r w).0
  unfolding attest_token
  attest_token-Within r w = ground arith

  store_token-Within : (t : Token) (w : W) → Within 0 w (store_token keys sha broker t w).0
  unfolding store_token
  store_token-Within t w = ground arith

  send-Within :
      (call : State → State × Result SendError HttpResponse) (k : ℕ) (w : W)
      → ((s : State) → sent (call s).0 ≤ k + sent s)
      → Within k w (send keys sha broker call w).0
  send-Within call k w h = ground (arith, h w.net)

  attest_from_few :
      (left : ℕ) (url : Text) (m : Message json Tee) (s : State)
      → sent (attest_from keys sha broker left url m s).0 ≤ suc left + sent s
  unfolding attest_from
  attest_from_few zero url m s = ground (arith, counter.sent-post s url m)
  attest_from_few (suc left) url m s =
      ground (arith, counter.sent-post s url m, attest_from_few left url m (post s url m).0)

  submit-Within :
      (host : Text) (k : TeePubKey) (e : json.Value) (w : W)
      → Within 3 w (submit keys sha broker host k e w).0
  unfolding submit
  submit-Within host k e w =
      then-Within 3 0 w (send keys sha broker call)
        (λ r. attest_token keys sha broker r >>= store_token keys sha broker)
        (send-Within call 3 w (attest_from_few 2 url (attestation k e)))
        λ r v.
          then-Within 0 0 v (attest_token keys sha broker r) (store_token keys sha broker)
            (attest_token-Within r v) store_token-Within
    where
      url : Text
      url = endpoint host (bytes "attest")

      call : State → State × Result SendError HttpResponse
      call = attest_from keys sha broker 2 url (attestation k e)

  -- The part of an answer after the evidence is asked for.
  abbrev parse : Text → M keys sha broker json.Value
  parse evidence = lift (ok_or (json.from_str evidence) response_not_deserialized)

  abbrev measure : TeePubKey → Challenge json → Tee → HashAlgorithm → M keys sha broker Text
  measure pk c tee algorithm =
      ask keys sha broker get_evidence_failed
        (λ s. get_evidence s (report_data keys sha broker pk c.nonce tee algorithm))

  measure-Within :
      (pk : TeePubKey) (c : Challenge json) (tee : Tee) (algorithm : HashAlgorithm) (w : W)
      → Within 0 w (measure pk c tee algorithm w).0
  measure-Within pk c tee algorithm w = ground (
    arith,
    counter.sent-get_evidence w.net (report_data keys sha broker pk c.nonce tee algorithm),
  )

  lift-Within : {A : Type 0} (r : Result KbsError A) (w : W) → Within 0 w w
  lift-Within r w = ground arith

  answer-Within :
      (host : Text) (tee : Tee) (c : Challenge json) (w : W)
      → Within 3 w (answer keys sha broker host tee c w).0
  unfolding answer
  answer-Within host tee c w =
      then-Within 0 3 w (lift (get_hash_algorithm keys sha broker c.extra_params))
        (λ algorithm. own_pubkey keys sha broker >>= λ pk. measured pk algorithm) (stays w)
        λ algorithm v.
          then-Within 0 3 v (own_pubkey keys sha broker) (λ pk. measured pk algorithm) (stays v)
            λ pk u.
              then-Within 0 3 u (measure pk c tee algorithm) (λ e. parsed pk e)
                (measure-Within pk c tee algorithm u)
                λ e t.
                  then-Within 0 3 t (parse e) (λ v. submit keys sha broker host pk v) (stays t)
                    (submit-Within host pk)
    where
      stays : (v : W) → Within 0 v v
      stays v = ground arith

      parsed : TeePubKey → Text → M keys sha broker (Unit {0})
      parsed pk e = parse e >>= λ v. submit keys sha broker host pk v

      measured : TeePubKey → HashAlgorithm → M keys sha broker (Unit {0})
      measured pk algorithm = measure pk c tee algorithm >>= λ e. parsed pk e

  -- A handshake sends at most four requests, whatever becomes of it.
  handshake-Within : (host : Text) (w : W) → Within 4 w (handshake_with keys sha broker host w).0
  unfolding handshake_with
  handshake-Within host w =
      then-Within 0 4 w (tee_type keys sha broker) asked (tee_type-Within w) λ tee v.
        then-Within 1 3 v (send keys sha broker (call tee)) (answered tee)
          (send-Within (call tee) 1 v (λ s. omega (arith, counter.sent-post s url (auth tee))))
          λ r u.
            then-Within 0 3 u (auth_challenge keys sha broker r) (answer keys sha broker host tee)
              (auth_challenge-Within r u) (answer-Within host tee)
    where
      url : Text
      url = endpoint host (bytes "auth")

      auth : Tee → Message json Tee
      auth tee = auth_request kbs_protocol_version tee list_all

      call : Tee → State → State × Result SendError HttpResponse
      call tee s = post s url (auth tee)

      answered : Tee → HttpResponse → M keys sha broker (Unit {0})
      answered tee r = auth_challenge keys sha broker r >>= answer keys sha broker host tee

      asked : Tee → M keys sha broker (Unit {0})
      asked tee = send keys sha broker (call tee) >>= answered tee

  rcar-Within : (w : W) → Within 4 w (rcar_handshake keys sha broker w).0
  unfolding rcar_handshake
  rcar-Within w = handshake-Within w.client.kbs_host_url w

  repeat-Within :
      (left : ℕ) (w : W) → Within (4 * suc left) w (repeat_from keys sha broker left w).0
  unfolding repeat_from
  repeat-Within zero w = rcar-Within w
  repeat-Within (suc left) w =
      ground (arith, rcar-Within w, repeat-Within left (rcar_handshake keys sha broker w).0)

  get_token-Within : (now : ℕ) (w : W) → Within 20 w (get_token keys sha broker now w).0
  unfolding get_token repeat_rcar_handshake current_token
  get_token-Within now w = ground (arith, repeat-Within 4 w)

  open-Within : (r : HttpResponse) (w : W) → Within 0 w (open_response keys sha broker r w).0
  unfolding open_response
  open-Within r w = ground arith

  get-Within :
      (left : ℕ) (url : Text) (w : W) → Within (5 * left) w (get_from keys sha broker left url w).0
  unfolding get_from
  get-Within zero url w = ground arith
  get-Within (suc left) url w =
      let w1 : W = record w { net = (fetch w.net url none).0 } in
      let once = counter.sent-fetch w.net url none in
      elim (Result-cases (fetch w.net url none).1) [
        | inr (e, lost) ↦ ground (arith, once)
        | inl (r, came) ↦ ground (
          arith,
          once,
          open-Within r w1,
          rcar-Within w1,
          get-Within left url (rcar_handshake keys sha broker w1).0,
        )
      ]

  -- However the broker and the platform behave, and whatever the result: `get_token` sends at most 20
  -- requests and `get_resource` at most 15, and neither changes the client's key or its broker.
  pub requests_bounded :
      (w : W)
      → ((now : ℕ) → Within 20 w (get_token keys sha broker now w).0)
        × ((uri : ResourceUri) → Within 15 w (get_resource keys sha broker uri w).0)
  unfolding get_resource
  requests_bounded w = (
    λ now. get_token-Within now w,
    λ uri. get-Within 3 (resource_url w.client.kbs_host_url uri) w,
  )
