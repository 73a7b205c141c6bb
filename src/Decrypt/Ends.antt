-- ===== src/Decrypt/Ends.antt =====
-- Reading a layer to its end, in image-rs/src/decrypt.rs.
use coco_guest_components.Common.{
  ℕ, zero, suc, ◌<◌, ◌≡◌, ◌≢◌, refl, sym, ap, ◌∙◌, ◌⊎◌, inl, inr, Bool, true, false, Option, none,
  some, List, [], ◌∷◌, ◌++◌, length, Bool-cases, Option-cases, Result-cases, Result, ok, err,
  if_holds, >>=-eq-ok, arith,
}
use coco_guest_components.Text.{◌=ₜ◌}
use coco_guest_components.External.Crypto.{Crypto}
use coco_guest_components.Ocicrypt.Options.{LayerBlockCipherOptions}
use coco_guest_components.Text.{Text, is_empty}
use coco_guest_components.Common.{
  ensure, ok_or, ok-injective, map_err, map_err-eq-ok, not, ◌>>=◌, ◌&&◌, ◌==◌, get_or,
}
use coco_guest_components.External.Encoding.{Encoding}
use coco_guest_components.Ocicrypt.Options.{get_opt}
use coco_guest_components.Ocicrypt.KeyWrap.{DecryptConfig, KeyWrappers}
use coco_guest_components.Ocicrypt.Encryption.{
  LayerError, Annotations, bad_json, get_layer_pub_opts, decrypt_layer_key_opts_data,
  start_decryption, decrypt_layer,
}
use coco_guest_components.Decrypt.{DecryptError, not_ended, read_layer, decrypt_layer_data}
use coco_guest_components.Ocicrypt.Cipher.{
  aes256ctr, aes256_key_size, invalid_key_length, no_hmac, choose_nonce, nonce_key, mac_failed,
  unsupported_cipher, new_handler, IoError, hmac_mismatch, unsupported, IoEvent, next_event, chunk,
  failed, AesCtrBlockCipherState, AesCtrBlockCipher, process, on_event, read, read_to_end, init,
  handler_decrypt,
}

module _ (crypto : Crypto) where
  -- How much of its input the reader has not seen.
  abbrev pub unread : AesCtrBlockCipher crypto → ℕ
  unread c = elim c.state [ none ↦ 0 | some st ↦ length st.reader ]

  -- A call of `read` that is the last one.
  abbrev IsLast : Result IoError (List ℕ) → Type 0
  IsLast r = (r ≡ ok []) ⊎ ((e : IoError) × (r ≡ err e))

  process_reader :
      (encrypt : Bool) (st : AesCtrBlockCipherState crypto) (buf : List ℕ)
      → (process crypto encrypt st buf).0.reader ≡ st.reader
  unfolding process
  process_reader true st [] = refl
  process_reader true st (b ∷ buf) = refl
  process_reader false st [] = refl
  process_reader false st (b ∷ buf) = refl

  on_event_reader :
      (encrypt : Bool) (st : AesCtrBlockCipherState crypto) (e : IoEvent)
      → (on_event crypto encrypt st e).0.reader ≡ st.reader
  unfolding on_event
  on_event_reader encrypt st failed = refl
  on_event_reader encrypt st (chunk buf) = process_reader encrypt st buf

  process-IsLast :
      (encrypt : Bool) (st : AesCtrBlockCipherState crypto)
      → IsLast (process crypto encrypt st []).1
  unfolding process
  process-IsLast true st = inl refl
  process-IsLast false st = elim (Bool-cases (crypto.mac_finalize st.hmac =ₜ st.exp_hmac)) [
    | inl same ↦ inl (ground arith)
    | inr other ↦ inr (hmac_mismatch, ground arith)
  ]

  on_event-IsLast :
      (encrypt : Bool) (st : AesCtrBlockCipherState crypto)
      → IsLast (on_event crypto encrypt st (chunk [])).1
  unfolding on_event
  on_event-IsLast encrypt st = process-IsLast encrypt st

  on_next :
      (encrypt : Bool) (st : AesCtrBlockCipherState crypto) (es : List IoEvent)
      → IsLast
          (on_event crypto encrypt (record st { reader = (next_event es).1 }) (next_event es).0).1
        ⊎ (length
              (on_event crypto encrypt
                (record st { reader = (next_event es).1 })
                (next_event es).0).0.reader
            < length es)
  on_next encrypt st [] = inl (on_event-IsLast encrypt (record st { reader = [] }))
  on_next encrypt st (e ∷ es) =
      inr (omega (arith, ap length (on_event_reader encrypt (record st { reader = es }) e)))

  -- A call of `read` is the last one, or it takes from the input.
  read_progress :
      (len : ℕ) (encrypt : Bool) (state : Option (AesCtrBlockCipherState crypto))
      → IsLast (read crypto (record { key_len = len; encrypt = encrypt; state = state })).1
        ⊎ (unread (read crypto (record { key_len = len; encrypt = encrypt; state = state })).0
            < unread (record { key_len = len; encrypt = encrypt; state = state }))
  unfolding read
  read_progress len encrypt none = inl (inr (unsupported, refl))
  read_progress len encrypt (some st) =
      if_holds
        (λ (p : AesCtrBlockCipher crypto × Result IoError (List ℕ)).
          IsLast p.1 ⊎ (unread p.0 < length st.reader))
        st.done _ _ (inl (inl refl)) (on_next encrypt st st.reader)

  -- With more fuel than input, reading to the end ends.
  pub read_to_end-ends :
      (f : ℕ) (c : AesCtrBlockCipher crypto) (out : List ℕ)
      → unread c < f
      → read_to_end crypto f c out ≢ none
  unfolding read_to_end
  read_to_end-ends zero c out h = absurd (omega (arith, h))
  read_to_end-ends (suc f) c out h = elim (read_progress c.key_len c.encrypt c.state) [
    | inl (inl done) ↦ λ e. ground arith
    | inl (inr (x, fails)) ↦ λ e. ground arith
    | inr less ↦ elim (Result-cases (read crypto c).1) [
      | inr (x, fails) ↦ λ e. ground arith
      | inl ([], done) ↦ λ e. ground arith
      | inl (b ∷ bs, more) ↦ λ e.
          read_to_end-ends f (read crypto c).0 (out ++ b ∷ bs) (omega (arith, less, h))
            (ground arith)
    ]
  ]

  unread-init :
      (c c' : AesCtrBlockCipher crypto) (encrypt : Bool) (reader : List IoEvent)
      (opts opts' : LayerBlockCipherOptions) (random : Option (List ℕ))
      → init crypto c encrypt reader opts random ≡ ok (c', opts')
      → unread c' ≡ length reader
  unfolding init
  unread-init c c' encrypt reader opts opts' random h =
      let (_, _, h1) =
        >>=-eq-ok (ensure (length opts.private.symmetric_key == aes256_key_size) invalid_key_length)
          _ h in
      let (_, _, h2) =
        >>=-eq-ok (ensure (not (not encrypt && is_empty opts.public.hmac)) no_hmac) _ h1 in
      let (nonce, _, h3) = >>=-eq-ok (choose_nonce crypto (get_opt opts nonce_key) random) _ h2 in
      let (hmac, _, h4) =
        >>=-eq-ok (ok_or (crypto.mac_new opts.private.symmetric_key) mac_failed) _ h3 in
      ap (λ p. unread p.0) (sym (ok-injective h4))

  decrypt_unread :
      (c c' : AesCtrBlockCipher crypto) (reader : List IoEvent)
      (opts opts' : LayerBlockCipherOptions) (random : Option (List ℕ))
      → handler_decrypt crypto c reader opts random ≡ ok (c', opts')
      → unread c' ≡ length reader
  unfolding handler_decrypt
  decrypt_unread c c' reader opts opts' random h =
      let (_, _, h1) =
        >>=-eq-ok (ensure (opts.public.cipher_type =ₜ aes256ctr) unsupported_cipher) _ h in
      unread-init c c' false reader opts opts' random h1

module _ (enc : Encoding) (crypto : Crypto) where
  start_unread :
      (reader : List IoEvent) (priv_opts pub_opts : List ℕ) (random : Option (List ℕ))
      (c : AesCtrBlockCipher crypto) (digest : Text)
      → start_decryption enc crypto reader priv_opts pub_opts random ≡ ok (c, digest)
      → unread crypto c ≡ length reader
  unfolding start_decryption
  start_unread reader priv_opts pub_opts random c digest h =
      let (priv, _, h1) = >>=-eq-ok (ok_or (enc.private_from_slice priv_opts) bad_json) _ h in
      let (pub', _, h2) = >>=-eq-ok (ok_or (enc.public_from_slice pub_opts) bad_json) _ h1 in
      let (lbch, _, h3) = >>=-eq-ok (map_err LayerError.cipher (new_handler crypto)) _ h2 in
      let ((lbch', opts), made, h4) =
        >>=-eq-ok
          (map_err LayerError.cipher
            (handler_decrypt crypto lbch reader (record { public = pub'; private = priv }) random))
          _ h3 in
      let started =
        decrypt_unread crypto lbch lbch' reader (record { public = pub'; private = priv }) opts
          random (map_err-eq-ok LayerError.cipher _ made) in
      ap (λ p. unread crypto p.0) (sym (ok-injective h4)) ∙ started

  layer_unread :
      (ws : KeyWrappers) (dc : DecryptConfig) (reader : List IoEvent)
      (annotations : Option Annotations) (random : Option (List ℕ)) (c : AesCtrBlockCipher crypto)
      (digest : Text)
      → decrypt_layer enc crypto ws dc reader annotations false random ≡ ok (some c, digest)
      → unread crypto c ≡ length reader
  unfolding decrypt_layer
  layer_unread ws dc reader annotations random c digest h =
      let (priv_opts, _, h1) = >>=-eq-ok (decrypt_layer_key_opts_data enc ws dc annotations) _ h in
      let (pub_opts, _, h2) = >>=-eq-ok (get_layer_pub_opts enc (get_or [] annotations)) _ h1 in
      let ((lbch, d), started, h3) =
        >>=-eq-ok (start_decryption enc crypto reader priv_opts pub_opts random) _ h2 in
      let same : lbch ≡ c = ground arith in
      ap (unread crypto) (sym same) ∙ start_unread reader priv_opts pub_opts random lbch d started

  read_layer-ends :
      (events : List IoEvent) (c : AesCtrBlockCipher crypto)
      → unread crypto c ≡ length events
      → read_layer enc crypto events c ≢ err not_ended
  unfolding read_layer
  read_layer-ends events c e = elim (Option-cases (read_to_end crypto (suc (length events)) c [])) [
    | inl stopped ↦
        absurd (read_to_end-ends crypto (suc (length events)) c [] (omega (arith, e)) stopped)
    | inr ((c', r), given) ↦ elim (Result-cases r) [
      | inl (bs, fine) ↦ λ h. ground arith
      | inr (x, bad) ↦ λ h. ground arith
    ]
  ]

  -- Whatever the layer, its annotations and the key wrappers are: `decrypt_layer_data` comes to an end.
  -- The fuel of the loop that reads the layer, one more than its chunks, is never used up.
  pub decrypt_layer_data-ends :
      (ws : KeyWrappers) (events : List IoEvent) (annotations : Option Annotations)
      (decrypt_config : Option DecryptConfig) (random : Option (List ℕ))
      → decrypt_layer_data enc crypto ws events annotations decrypt_config random ≢ err not_ended
  unfolding decrypt_layer_data
  decrypt_layer_data-ends ws events annotations none random = λ h. cc
  decrypt_layer_data-ends ws events annotations (some dc) random =
      elim (Result-cases (decrypt_layer enc crypto ws dc events annotations false random)) [
        | inr (x, bad) ↦ λ h. ground arith
        | inl ((none, digest), done) ↦ λ h. ground arith
        | inl ((some c, digest), done) ↦ λ h.
            read_layer-ends events c (layer_unread ws dc events annotations random c digest done)
              (only_read (read_layer enc crypto events c) digest (ground arith))
      ]
    where
      only_read :
          (r : Result DecryptError (List ℕ)) (digest : Text)
          → ◌>>=◌ {B = List ℕ × Text} r (λ plain. ok (plain, digest)) ≡ err not_ended
          → r ≡ err not_ended
      only_read (ok plain) digest h = cc
      only_read (err x) digest h = ground arith
