-- ===== src/Kbs/Answers.antt =====
-- What the client gives for a token, whether it is the stored one or a new one.
use coco_guest_components.Common.{
  ℕ, zero, suc, ◌≤◌, ◌<◌, ◌≡◌, ◌≢◌, ◌∙◌, ◌⊎◌, inl, inr, some, Option-cases, ok, err, Result-cases,
  arith,
}
use coco_guest_components.External.Tee.{Sha2}
use coco_guest_components.External.Broker.{JsonCrate, KeyCrate, Broker}
use coco_guest_components.Steps.{after_elim}
use coco_guest_components.Kbs.Token.{Token, check_valid}
use coco_guest_components.Kbs.Keypair.{TeeKey}
use coco_guest_components.Kbs.Client.{
  rcar_handshake, repeat_from, repeat_rcar_handshake, current_token, renewed_token, get_token,
}
use coco_guest_components.Kbs.ClientState.{KbsError, World}
use coco_guest_components.Kbs.Handshake.{rcar_handshake_sound}

module _ {json : JsonCrate} (keys : KeyCrate json) (sha : Sha2) (broker : Broker json) where
  open broker use {fetch, response_from, error_information_from}

  abbrev W : Type 0
  W = World keys broker

  -- The world after `n` handshakes, whatever their results.
  abbrev pub after_handshakes : ℕ → W → W
  after_handshakes zero w = w
  after_handshakes (suc n) w = after_handshakes n (rcar_handshake keys sha broker w).0

  abbrev pub Fails : W → Type 0
  Fails w = (e : KbsError) × ((rcar_handshake keys sha broker w).1 ≡ err e)

  -- A success of the loop is that of one of its handshakes.
  repeat_ok :
      (left : ℕ) (w w' : W)
      → repeat_from keys sha broker left w ≡ (w', ok tt)
      → (v : W) × (rcar_handshake keys sha broker v ≡ (w', ok tt))
  unfolding repeat_from
  repeat_ok zero w w' h = elim (Result-cases (rcar_handshake keys sha broker w).1) [
    | inl (u, good) ↦ (w, ground arith)
    | inr (e, bad) ↦ ground arith
  ]
  repeat_ok (suc left) w w' h = elim (Result-cases (rcar_handshake keys sha broker w).1) [
    | inl (u, good) ↦ (w, ground arith)
    | inr (e, bad) ↦ repeat_ok left (rcar_handshake keys sha broker w).0 w' (ground arith)
  ]

  repeat_rcar_ok :
      (w w' : W)
      → repeat_rcar_handshake keys sha broker w ≡ (w', ok tt)
      → (v : W) × (rcar_handshake keys sha broker v ≡ (w', ok tt))
  unfolding repeat_rcar_handshake
  repeat_rcar_ok w w' h = repeat_ok 4 w w' h

  -- The token is in force, or came with a handshake because there was none or it was not valid.
  abbrev pub IsFresh : ℕ → W → W → Token → Type 0
  IsFresh now w w' t =
      ((w' ≡ w) × (check_valid now t ≡ ok tt))
      ⊎ ((((old : Token) → w.client.token ≡ some old → check_valid now old ≢ ok tt))
          × (v : W) × (rcar_handshake keys sha broker v ≡ (w', ok tt)))

  current_token_ok :
      (w w' : W) (t : Token) (key : TeeKey keys)
      → current_token keys sha broker w ≡ (w', ok (t, key))
      → (w' ≡ w) × (w'.client.token ≡ some t) × (w'.client.tee_key ≡ key)
  unfolding current_token
  current_token_ok w w' t key h = elim (Option-cases w.client.token) [
    | inl no_token ↦ ground arith
    | inr (held, e) ↦ (ground arith, ground arith, ground arith)
  ]

  renewed_ok :
      (now : ℕ) (w w' : W) (t : Token) (key : TeeKey keys)
      → ((old : Token) → w.client.token ≡ some old → check_valid now old ≢ ok tt)
      → renewed_token keys sha broker w ≡ (w', ok (t, key))
      → (w'.client.token ≡ some t) × (w'.client.tee_key ≡ key) × IsFresh now w w' t
  renewed_ok now w w' t key stale h =
      after_elim (repeat_rcar_handshake keys sha broker w) (λ _. current_token keys sha broker) h
        λ u done shaken current.
          let (same, kept, own) = current_token_ok u w' t key current in
          let (v, handshake) = repeat_rcar_ok w u shaken in
          (kept, own, inr (stale, v, rw same handshake))

  -- A token that `get_token` gives is the one that the client holds afterwards, and the key is the
  -- client's. Either the token is valid at the time and nothing has changed, or the client had no valid
  -- token and the last thing done was a successful handshake.
  pub get_token_sound :
      (now : ℕ) (w w' : W) (t : Token) (key : TeeKey keys)
      → get_token keys sha broker now w ≡ (w', ok (t, key))
      → (w'.client.token ≡ some t) × (w'.client.tee_key ≡ key) × IsFresh now w w' t
  unfolding get_token
  get_token_sound now w w' t key h = elim (Option-cases w.client.token) [
    | inl no_token ↦ renewed_ok now w w' t key (λ old e. cc) (ground arith)
    | inr (old, held) ↦ elim (Result-cases (check_valid now old)) [
      | inr (e, invalid) ↦ renewed_ok now w w' t key (λ old' e'. ground arith) (ground arith)
      | inl (u, valid) ↦
          let (same, kept, own) = current_token_ok w w' t key (ground arith) in
          (kept, own, inl (same, ground arith))
    ]
  ]

  -- If handshakes fail at first, and one of the first five succeeds, that one's token is given.
  repeat_first :
      (left j : ℕ) (w : W)
      → j ≤ left
      → ((i : ℕ) → i < j → Fails (after_handshakes i w))
      → (rcar_handshake keys sha broker (after_handshakes j w)).1 ≡ ok tt
      → repeat_from keys sha broker left w ≡ (after_handshakes (suc j) w, ok tt)
  unfolding repeat_from
  repeat_first zero zero w b fails works = ground arith
  repeat_first zero (suc j) w b fails works = absurd (omega arith)
  repeat_first (suc left) zero w b fails works = ground arith
  repeat_first (suc left) (suc j) w b fails works =
      let (e, failed) = fails 0 (omega arith) in
      ground (
        arith,
        failed,
        repeat_first left j (rcar_handshake keys sha broker w).0 (omega arith)
            (λ i lt. fails (suc i) (omega arith)) works,
      )

  repeat_rcar_first :
      (j : ℕ) (w : W)
      → j < 5
      → ((i : ℕ) → i < j → Fails (after_handshakes i w))
      → (rcar_handshake keys sha broker (after_handshakes j w)).1 ≡ ok tt
      → repeat_rcar_handshake keys sha broker w ≡ (after_handshakes (suc j) w, ok tt)
  unfolding repeat_rcar_handshake
  repeat_rcar_first j w few fails works = repeat_first 4 j w (omega arith) fails works

  current_token_lem :
      (w : W) (t : Token)
      → w.client.token ≡ some t
      → current_token keys sha broker w ≡ (w, ok (t, w.client.tee_key))
  unfolding current_token
  current_token_lem w t h = ground arith

  renewed_lem :
      (w v : W)
      → repeat_rcar_handshake keys sha broker w ≡ (v, ok tt)
      → (t : Token) × (v.client.token ≡ some t)
        × (renewed_token keys sha broker w ≡ (v, ok (t, v.client.tee_key)))
  renewed_lem w v h =
      let (u, shaken) = repeat_rcar_ok w v h in
      let facts = rcar_handshake_sound keys sha broker u v shaken in
      let t = facts.answered.submitted.token in
      let held : v.client.token ≡ some t = ground arith in
      (t, held, rw h (current_token_lem v t held))

  stale_token :
      (now : ℕ) (w : W)
      → ((old : Token) → w.client.token ≡ some old → check_valid now old ≢ ok tt)
      → get_token keys sha broker now w ≡ renewed_token keys sha broker w
  unfolding get_token
  stale_token now w stale = elim (Option-cases w.client.token) [
    | inl no_token ↦ ground arith
    | inr (old, e) ↦ elim (Result-cases (check_valid now old)) [
      | inl (u, valid) ↦ absurd (stale old e valid)
      | inr (x, invalid) ↦ ground arith
    ]
  ]

  -- Without a valid token, if the first handshakes fail and one of the first five succeeds, `get_token`
  -- gives a token, and the world is the one after that handshake, whose token the client holds.
  pub get_token_retries :
      (now j : ℕ) (w : W)
      → ((old : Token) → w.client.token ≡ some old → check_valid now old ≢ ok tt)
      → j < 5
      → ((i : ℕ) → i < j → Fails (after_handshakes i w))
      → (rcar_handshake keys sha broker (after_handshakes j w)).1 ≡ ok tt
      → (t : Token) × ((after_handshakes (suc j) w).client.token ≡ some t)
        × (get_token keys sha broker now w
            ≡ (after_handshakes (suc j) w, ok (t, (after_handshakes (suc j) w).client.tee_key)))
  get_token_retries now j w stale few fails works =
      let (t, held, renewed) =
        renewed_lem w (after_handshakes (suc j) w) (repeat_rcar_first j w few fails works) in
      (t, held, stale_token now w stale ∙ renewed)
