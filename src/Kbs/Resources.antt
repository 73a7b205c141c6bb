-- ===== src/Kbs/Resources.antt =====
-- What a resource is that the client gives.
use coco_guest_components.Common.{
  ℕ, zero, suc, ◌≡◌, ap, inl, inr, none, List, ◌==◌, ==_iff, Bool-cases, Result, ok, map_err,
  map_err-eq-ok, Result-cases, arith,
}
use coco_guest_components.Text.{Text}
use coco_guest_components.External.Tee.{Sha2}
use coco_guest_components.External.Broker.{JsonCrate, KeyCrate, HttpResponse, KbsResponse, Broker}
use coco_guest_components.ResourceUri.{ResourceUri}
use coco_guest_components.Steps.{◌>>=◌, after_elim}
use coco_guest_components.Kbs.Keypair.{decrypt_response}
use coco_guest_components.Kbs.Client.{
  read_json, rcar_handshake, open_response, refused, authenticate_again, get_from, get_resource,
}
use coco_guest_components.Kbs.ClientState.{
  KbsError, response_not_deserialized, decrypt_response_failed, World, resource_url,
}
use coco_guest_components.Kbs.Handshake.{read_json_ok}
use coco_guest_components.Kbs.Attested.{Answers}
use coco_guest_components.Kbs.Opened.{Opens, decrypt_response-Opens}

module _ {json : JsonCrate} (keys : KeyCrate json) (sha : Sha2) (broker : Broker json) where
  open broker use {fetch, response_from, error_information_from}

  abbrev W : Type 0
  W = World keys broker

  -- The resource came with an answer of status 200 to a request for it, and the client's key opens it.
  abbrev pub Served : Text → W → List ℕ → Type 0
  Served url w payload =
      (s : broker.State) × (response : HttpResponse) × (body : KbsResponse json) × (fetch s url none
        ≡ (w.net, ok response))
      × Answers keys sha broker response_from response body
      × Opens keys w.client.tee_key body payload

  open_ok :
      (url : Text) (s : broker.State) (r : HttpResponse) (w w' : W) (payload : List ℕ)
      → fetch s url none ≡ (w.net, ok r)
      → r.status ≡ 200
      → open_response keys sha broker r w ≡ (w', ok payload)
      → Served url w' payload
  unfolding open_response
  open_ok url s r w w' payload sent good h =
      after_elim (read_json keys sha broker response_from r response_not_deserialized w)
        (λ body. decrypted body) h
        λ u body read opened.
          let (same, answers) = read_json_ok keys sha broker response_from r _ w u good read in
          let key : decrypt_response keys u.client.tee_key body ≡ ok payload =
            map_err-eq-ok decrypt_response_failed (decrypt_response keys u.client.tee_key body)
              (cc) in
          let stays : w' ≡ u = cc in
          (s, r, body, cc, answers, decrypt_response-Opens keys _ body payload (rw stays key))
    where
      decrypted : KbsResponse json → W → W × Result KbsError (List ℕ)
      decrypted body w =
          (w, map_err decrypt_response_failed (decrypt_response keys w.client.tee_key body))

  -- After an answer of status 401, the resource comes from what follows the handshake.
  retried_ok :
      (r : HttpResponse) (w w' : W) (next : W → W × Result KbsError (List ℕ)) (payload : List ℕ)
      → refused keys sha broker r (authenticate_again keys sha broker >>= λ _. next) w
        ≡ (w', ok payload)
      → next (rcar_handshake keys sha broker w).0 ≡ (w', ok payload)
  retried_ok r w w' next payload h =
      after_elim (read_json keys sha broker error_information_from r response_not_deserialized w) _
        h
        λ u _ read again.
          after_elim (authenticate_again keys sha broker u) (λ _. next) again
            λ v _ shaken came.
              let e : u ≡ w = cc in
              let f : (rcar_handshake keys sha broker u).0 ≡ v = ap (λ p. p.0) shaken in
              rw (← e) (rw f came)

  get_from_ok :
      (left : ℕ) (url : Text) (w w' : W) (payload : List ℕ)
      → get_from keys sha broker left url w ≡ (w', ok payload)
      → Served url w' payload
  unfolding get_from
  get_from_ok zero url w w' payload h = cc
  get_from_ok (suc left) url w w' payload h = elim (Result-cases (fetch w.net url none).1) [
    | inr (e, lost) ↦ ground arith
    | inl (r, came) ↦ elim (Bool-cases (r.status == 200)) [
      | inl good ↦
          open_ok url w.net r (sent w) w' payload (ground arith) ((==_iff _ _).0 good)
            (ground arith)
      | inr bad ↦ elim (Bool-cases (r.status == 401)) [
        | inr final ↦ ground arith
        | inl unauthorized ↦
            get_from_ok left url (rcar_handshake keys sha broker (sent w)).0 w' payload
              (retried_ok r (sent w) w' (get_from keys sha broker left url) payload (ground arith))
      ]
    ]
  ]
    where
      sent : W → W
      sent w = record w { net = (fetch w.net url none).0 }

  -- A resource that `get_resource` gives came with the answer, of status 200, to the last request for
  -- the resource's URL at the client's broker. The client's private key unwrapped the content key of
  -- the answer, by RSA or by ECDH on P-256 as the answer's header says, and the resource is the
  -- ciphertext of the answer, decrypted by AES-256-GCM under that content key with the answer's IV and
  -- tag and with the additional data that is made of the header.
  pub get_resource_sound :
      (uri : ResourceUri) (w w' : W) (payload : List ℕ)
      → get_resource keys sha broker uri w ≡ (w', ok payload)
      → Served (resource_url w.client.kbs_host_url uri) w' payload
  unfolding get_resource
  get_resource_sound uri w w' payload h =
      get_from_ok 3 (resource_url w.client.kbs_host_url uri) w w' payload h
