-- ===== src/Ocicrypt/Encryption/Rewrap.antt =====
-- What the annotations of a layer become that was encrypted before.
use coco_guest_components.Common.{
  ℕ, ◌≡◌, sym, ap, ◌∙◌, ◌≢◌, Bool, false, not, Option, none, some, List, [], get_or, ok, ensure,
  ok_or, true, is_some, Bool-cases, inl, inr, Memᴰ, ◌∷◌, >>=-eq-ok, ok_or-eq-ok, ok-injective,
  arith,
}
use coco_guest_components.Text.{Text}
use coco_guest_components.Text.Map.{lookup, insert, lookup_inserted}
use coco_guest_components.External.Crypto.{Crypto}
use coco_guest_components.External.Encoding.{Encoding, EncodingLaws}
use coco_guest_components.Ocicrypt.Options.{LayerBlockCipherOptions}
use coco_guest_components.Ocicrypt.Cipher.{IoEvent, AesCtrBlockCipher}
use coco_guest_components.Ocicrypt.KeyWrap.{
  DecryptConfig, EncryptConfig, KeyWrappers, key_wrappers_annotations,
}
use coco_guest_components.Ocicrypt.Encryption.{
  Annotations, pubopts_key, has_none, no_keys_wrapped, no_encryptor, bad_json, wrap_all,
  with_pubopts, finalize_annotations, get_layer_pub_opts, decrypt_layer_key_opts_data,
  start_decryption, decrypt_layer, find_encrypted, encrypt_layer, no_decrypt_config,
}

module _ (enc : Encoding) (codes : EncodingLaws enc) (crypto : Crypto) where
  open enc use {base64_encode, base64_decode, private_from_slice, public_from_slice}

  pubopts_found_at :
      (a : Annotations) (pub_opts : List ℕ)
      → lookup pubopts_key a ≡ some (base64_encode pub_opts)
      → get_layer_pub_opts enc a ≡ ok pub_opts
  unfolding get_layer_pub_opts
  pubopts_found_at a pub_opts e = ground (arith, e, codes.base64_decode-encode pub_opts)

  pubopts_inserted :
      (pub_opts : List ℕ) (wrapped : Annotations × Bool) (a : Annotations)
      → with_pubopts enc pub_opts wrapped ≡ ok a
      → get_layer_pub_opts enc a ≡ ok pub_opts
  unfolding with_pubopts
  pubopts_inserted pub_opts (m, b) a h =
      let (_, _, h1) = >>=-eq-ok (ensure b no_keys_wrapped) _ h in
      let (_, _, h2) = >>=-eq-ok (ensure (not (has_none m)) no_encryptor) _ h1 in
      ap (get_layer_pub_opts enc) (sym (ok-injective h2))
      ∙ pubopts_found_at (insert pubopts_key (base64_encode pub_opts) m) pub_opts
          (lookup_inserted pubopts_key (base64_encode pub_opts) m)

  no_reader :
      (reader : List IoEvent) (priv_opts_data : List ℕ) (random : Option (List ℕ))
      (r : AesCtrBlockCipher crypto × Text)
      → public_from_slice [] ≡ none
      → start_decryption enc crypto reader priv_opts_data [] random ≢ ok r
  unfolding start_decryption
  no_reader reader priv_opts_data random r e h =
      let (_, _, h1) = >>=-eq-ok (ok_or (private_from_slice priv_opts_data) bad_json) _ h in
      let (p, h2, _) = >>=-eq-ok (ok_or (public_from_slice []) bad_json) _ h1 in
      absurd (ground (arith, ok_or-eq-ok (public_from_slice []) bad_json h2, e))

  -- After an annotation that the layer has, the rest is looked through with `encrypted` set.
  find_encrypted_present :
      (ws : KeyWrappers) (ec : EncryptConfig) (annotations : Option Annotations) (id scheme : Text)
      (ids : List (Text × Text)) (before encrypted : Bool)
      → is_some (lookup id (get_or [] annotations)) ≡ true
      → find_encrypted enc crypto ws ec annotations ((id, scheme) ∷ ids) before ≡ ok encrypted
      → find_encrypted enc crypto ws ec annotations ids true ≡ ok encrypted
  unfolding find_encrypted
  find_encrypted_present ws ec annotations id scheme ids before encrypted present h =
      let (dc, _, h1) = >>=-eq-ok (ok_or ec.decrypt_config no_decrypt_config) _ (rw present at h) in
      let (_, _, h2) = >>=-eq-ok (decrypt_layer_key_opts_data enc ws dc annotations) _ h1 in
      let (_, _, h3) = >>=-eq-ok (get_layer_pub_opts enc (get_or [] annotations)) _ h2 in h3

  find_encrypted-true :
      (ws : KeyWrappers) (ec : EncryptConfig) (annotations : Option Annotations)
      (ids : List (Text × Text)) (encrypted : Bool)
      → find_encrypted enc crypto ws ec annotations ids true ≡ ok encrypted
      → encrypted ≡ true
  unfolding find_encrypted
  find_encrypted-true ws ec annotations [] encrypted h = sym (ok-injective h)
  find_encrypted-true ws ec annotations ((id, scheme) ∷ ids) encrypted h =
      elim (Bool-cases (is_some (lookup id (get_or [] annotations)))) [
        | inr absent ↦
            find_encrypted-true ws ec annotations ids encrypted (ground (arith, absent, h))
        | inl present ↦
            find_encrypted-true ws ec annotations ids encrypted
              (find_encrypted_present ws ec annotations id scheme ids true encrypted present h)
      ]

  find_encrypted-found :
      (ws : KeyWrappers) (ec : EncryptConfig) (annotations : Option Annotations)
      (ids : List (Text × Text)) (before encrypted : Bool) (id scheme : Text)
      → Memᴰ (id, scheme) ids
      → is_some (lookup id (get_or [] annotations)) ≡ true
      → find_encrypted enc crypto ws ec annotations ids before ≡ ok encrypted
      → encrypted ≡ true
  unfolding find_encrypted
  find_encrypted-found ws ec annotations [] before encrypted id scheme m found h = elim m [ ]
  find_encrypted-found ws ec annotations ((id', scheme') ∷ ids) before encrypted id scheme
        (Memᴰ.head e) found h =
      find_encrypted-true ws ec annotations ids encrypted (
        find_encrypted_present ws ec annotations id' scheme' ids before encrypted
          (ap (λ p. is_some (lookup p.0 (get_or [] annotations))) (sym e) ∙ found) h)
  find_encrypted-found ws ec annotations ((id', scheme') ∷ ids) before encrypted id scheme
        (Memᴰ.tail m) found h =
      elim (Bool-cases (is_some (lookup id' (get_or [] annotations)))) [
        | inr absent ↦
            find_encrypted-found ws ec annotations ids before encrypted id scheme m found
              (ground (arith, absent, h))
        | inl present ↦
            find_encrypted-true ws ec annotations ids encrypted
              (find_encrypted_present ws ec annotations id' scheme' ids before encrypted present h)
      ]

  encrypt_layer-none :
      (ws : KeyWrappers) (ec : EncryptConfig) (layer_reader : List IoEvent)
      (annotations : Option Annotations) (digest : Text) (random_key random_nonce : Option (List ℕ))
      (id scheme : Text) (reader : Option (AesCtrBlockCipher crypto))
      (lbco : LayerBlockCipherOptions)
      → Memᴰ (id, scheme) (key_wrappers_annotations ws)
      → is_some (lookup id (get_or [] annotations)) ≡ true
      → encrypt_layer enc crypto ws ec layer_reader annotations digest random_key random_nonce
        ≡ ok (reader, lbco)
      → reader ≡ none
  unfolding encrypt_layer
  encrypt_layer-none ws ec layer_reader annotations digest random_key random_nonce id scheme reader
        lbco m found h =
      let (encrypted, f, h1) =
        >>=-eq-ok (find_encrypted enc crypto ws ec annotations (key_wrappers_annotations ws) false)
          _ h in
      let yes =
        find_encrypted-found ws ec annotations (key_wrappers_annotations ws) false encrypted id
          scheme m found f in
      ap (λ p. p.0) (sym (ok-injective (rw yes at h1)))

  -- Without a finalizer the public options become the empty text.
  finalized_lost :
      (ws ws' : KeyWrappers) (lbco : LayerBlockCipherOptions) (ec : EncryptConfig)
      (dc : DecryptConfig) (annotations : Option Annotations) (a : Annotations)
      (reader : List IoEvent) (random : Option (List ℕ))
      (r : Option (AesCtrBlockCipher crypto) × Text)
      → public_from_slice [] ≡ none
      → finalize_annotations enc crypto ws lbco ec annotations none ≡ ok a
      → decrypt_layer enc crypto ws' dc reader (some a) false random ≢ ok r
  unfolding finalize_annotations decrypt_layer
  finalized_lost ws ws' lbco ec dc annotations a reader random r e f h =
      let (wrapped, _, fin) =
        >>=-eq-ok
          (wrap_all enc ws ec (get_or [] annotations) [] (key_wrappers_annotations ws) [] false) _
          f in
      let (priv, _, h1) = >>=-eq-ok (decrypt_layer_key_opts_data enc ws' dc (some a)) _ h in
      let (pub_data, ep, h2) = >>=-eq-ok (get_layer_pub_opts enc a) _ h1 in
      let (got, es, _) = >>=-eq-ok (start_decryption enc crypto reader priv pub_data random) _ h2 in
      let nothing : pub_data ≡ [] = ok-injective (sym ep ∙ pubopts_inserted [] wrapped a fin) in
      no_reader reader priv random got e
        (ap (λ d. start_decryption enc crypto reader priv d random) (sym nothing) ∙ es)

  -- A layer that is encrypted already, since its annotations have the one of a registered key wrapper,
  -- is lost when it is encrypted again. Where `encrypt_layer` succeeds on it, it gives no reader; and
  -- where `finalize_annotations` succeeds with what `encrypt_layer` gave, no one can decrypt the layer
  -- from the annotations that it returns, if JSON options are never the empty text.
  pub already_encrypted_lost :
      (ws ws' : KeyWrappers) (ec : EncryptConfig) (dc : DecryptConfig) (annotations a : Annotations)
      (id scheme digest : Text) (layer_reader layer_reader' : List IoEvent)
      (random_key random_nonce random : Option (List ℕ))
      (reader : Option (AesCtrBlockCipher crypto)) (lbco : LayerBlockCipherOptions)
      (r : Option (AesCtrBlockCipher crypto) × Text)
      → public_from_slice [] ≡ none
      → Memᴰ (id, scheme) (key_wrappers_annotations ws)
      → is_some (lookup id annotations) ≡ true
      → encrypt_layer enc crypto ws ec layer_reader
          (some annotations)
          digest
          random_key
          random_nonce
        ≡ ok (reader, lbco)
      → finalize_annotations enc crypto ws lbco ec (some annotations) reader ≡ ok a
      → (reader ≡ none)
        × (decrypt_layer enc crypto ws' dc layer_reader' (some a) false random ≢ ok r)
  already_encrypted_lost ws ws' ec dc annotations a id scheme digest layer_reader layer_reader'
        random_key random_nonce random reader lbco r e m found h f =
      let nothing =
        encrypt_layer-none ws ec layer_reader (some annotations) digest random_key random_nonce id
          scheme reader lbco m found h in
      (
        nothing,
        finalized_lost ws ws' lbco ec dc (some annotations) a layer_reader' random r e
            (ap (finalize_annotations enc crypto ws lbco ec (some annotations)) (sym nothing) ∙ f),
      )
