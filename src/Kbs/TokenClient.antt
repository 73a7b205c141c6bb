-- ===== src/Kbs/TokenClient.antt =====
-- attestation-agent/kbs_protocol/src/client/token_client.rs: the client that shows a token of a
-- provider with each request. The provider is outside the repository's client, as an argument.
use coco_guest_components.Common.{
  ℕ, zero, suc, ◌≡◌, ◌≢◌, inl, inr, Option, none, some, List, ◌==◌, Option-cases, if◌then◌else◌,
  Result, ok, err, arith,
}
use coco_guest_components.Text.{Text}
use coco_guest_components.External.Tee.{Sha2}
use coco_guest_components.External.Broker.{JsonCrate, KeyCrate, SendError, HttpResponse, Broker}
use coco_guest_components.ResourceUri.{ResourceUri}
use coco_guest_components.Steps.{◌>>=◌, lift, after_avoids}
use coco_guest_components.Kbs.Token.{Token}
use coco_guest_components.Kbs.Keypair.{TeeKey}
use coco_guest_components.Kbs.Client.{M, send, open_response, refused}
use coco_guest_components.Kbs.ClientState.{
  unauthorized, get_token_failed, assertion_failed, resource_not_found, kbs_internal_error,
  kbs_get_resource_max_attempt, World, resource_url,
}

module _ {json : JsonCrate} (keys : KeyCrate json) (sha : Sha2) (broker : Broker json)
    (provider : broker.State → broker.State × Option (Token × TeeKey keys)) where
  -- The token and its key pair replace the client's.
  unfoldable pub update_token : M keys sha broker (Unit {0})
  update_token w =
      let (net, got) = provider w.net in
      elim got [
        | none ↦ (record w { net = net }, err get_token_failed)
        | some (token, key) ↦ (
          record { client = record w.client { token = some token; tee_key = key }; net = net },
          ok tt,
        )
      ]

  -- `if self.token.is_none() { update }`
  unfoldable pub ensure_token : M keys sha broker (Unit {0})
  ensure_token w = elim w.client.token [ none ↦ update_token w | some _ ↦ (w, ok tt) ]

  -- `expect("token must have been got")`
  unfoldable pub bearer : M keys sha broker Text
  bearer w = elim w.client.token [ none ↦ (w, err assertion_failed) | some t ↦ (w, ok t.content) ]

  -- What an answer means, with the next attempts at hand.
  unfoldable pub on_answer : M keys sha broker (List ℕ) → HttpResponse → M keys sha broker (List ℕ)
  on_answer next response w =
      if response.status == 200
      then open_response keys sha broker response w
      else if response.status == 401
      then refused keys sha broker response (update_token >>= λ _. next) w
      else if response.status == 404
      then refused keys sha broker response (lift (err resource_not_found)) w
      else refused keys sha broker response (lift (err kbs_internal_error)) w

  -- The loop of `get_resource`, with the attempts that are left.
  unfoldable pub get_from : ℕ → Text → M keys sha broker (List ℕ)
  get_from zero url w = (w, err unauthorized)
  get_from (suc left) url w =
      let next = λ (v : World keys broker). get_from left url v in
      (ensure_token >>= λ _. bearer >>= λ content.
      send keys sha broker (λ s. broker.fetch s url (some content)) >>= on_answer next)
        w

  unfoldable pub get_resource : ResourceUri → M keys sha broker (List ℕ)
  get_resource uri w =
      get_from kbs_get_resource_max_attempt (resource_url w.client.kbs_host_url uri) w

  update_avoids : (w : World keys broker) → (update_token w).1 ≢ err assertion_failed
  unfolding update_token
  update_avoids w h = ground arith

  ensure_avoids : (w : World keys broker) → (ensure_token w).1 ≢ err assertion_failed
  unfolding ensure_token
  ensure_avoids w h = ground (arith, update_avoids w)

  update_gives :
      (w v : World keys broker)
      → update_token w ≡ (v, ok tt)
      → (t : Token) × (v.client.token ≡ some t)
  unfolding update_token
  update_gives w v h = elim (Option-cases (provider w.net).1) [
    | inl nothing ↦ ground arith
    | inr ((token, key), got) ↦ (token, ground arith)
  ]

  ensure_gives :
      (w v : World keys broker)
      → ensure_token w ≡ (v, ok tt)
      → (t : Token) × (v.client.token ≡ some t)
  unfolding ensure_token
  ensure_gives w v h = elim (Option-cases w.client.token) [
    | inl without ↦ update_gives w v (ground arith)
    | inr (t, held) ↦ (t, ground arith)
  ]

  bearer_avoids :
      (w : World keys broker) (t : Token)
      → w.client.token ≡ some t
      → (bearer w).1 ≢ err assertion_failed
  unfolding bearer
  bearer_avoids w t held h = ground arith

  open_avoids :
      (r : HttpResponse) (w : World keys broker)
      → (open_response keys sha broker r w).1 ≢ err assertion_failed
  unfolding open_response
  open_avoids r w h = ground arith

  on_answer_avoids :
      (next : M keys sha broker (List ℕ)) (r : HttpResponse) (w : World keys broker)
      → ((v : World keys broker) → (next v).1 ≢ err assertion_failed)
      → (on_answer next r w).1 ≢ err assertion_failed
  unfolding on_answer
  on_answer_avoids next r w rest h =
      ground (arith, open_avoids r w, update_avoids w, rest (update_token w).0)

  get_from_avoids :
      (left : ℕ) (url : Text) (w : World keys broker)
      → (get_from left url w).1 ≢ err assertion_failed
  unfolding get_from
  get_from_avoids zero url w = λ h. cc
  get_from_avoids (suc left) url w =
      after_avoids assertion_failed (ensure_token w) (λ _. bearer >>= asked) (ensure_avoids w)
        λ v _ given.
          let (t, held) = ensure_gives w v given in
          after_avoids assertion_failed (bearer v) asked (bearer_avoids v t held) λ u content _.
            after_avoids assertion_failed (send keys sha broker (call content) u) (on_answer next)
              (λ h. ground arith) λ x r _. on_answer_avoids next r x (get_from_avoids left url)
    where
      next : M keys sha broker (List ℕ)
      next v = get_from left url v

      call : Text → broker.State → broker.State × Result SendError HttpResponse
      call content s = broker.fetch s url (some content)

      asked : Text → M keys sha broker (List ℕ)
      asked content = send keys sha broker (call content) >>= on_answer next

  -- The token is there whenever a request is made: whatever the provider and the broker do,
  -- `get_resource` does not fail on the expectation of a token.
  pub get_resource-no_panic :
      (uri : ResourceUri) (w : World keys broker) → (get_resource uri w).1 ≢ err assertion_failed
  unfolding get_resource
  get_resource-no_panic uri w =
      get_from_avoids kbs_get_resource_max_attempt (resource_url w.client.kbs_host_url uri) w
