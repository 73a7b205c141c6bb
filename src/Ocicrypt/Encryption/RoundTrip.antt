-- ===== src/Ocicrypt/Encryption/RoundTrip.antt =====
-- A layer that is encrypted, annotated and then decrypted.
use coco_guest_components.Common.{
  ℕ, ◌≡◌, refl, ◌≢◌, true, false, Option, none, some, List, [], ◌∷◌, concat, length, ok, ==_iff,
}
use coco_guest_components.Text.{Text, ◌=ₜ◌}
use coco_guest_components.Text.Laws.{is_empty-false}
use coco_guest_components.Text.Map.{lookup, insert}
use coco_guest_components.External.Crypto.{Crypto, CryptoLaws}
use coco_guest_components.External.Encoding.{Encoding, EncodingLaws}
use coco_guest_components.Ocicrypt.Options.{LayerBlockCipherOptions, get_opt, default_options}
use coco_guest_components.Ocicrypt.Cipher.{
  AesCtrBlockCipher, aes256ctr, nonce_key, new, new_handler, choose_nonce, store_nonce, init,
  handler_encrypt, handler_decrypt, finalized_lbco,
}
use coco_guest_components.Ocicrypt.Cipher.Laws.{chunks, running, start, encrypted}
use coco_guest_components.Ocicrypt.KeyWrap.{
  DecryptConfig, EncryptConfig, KeyWrapper, key_wrappers_annotations,
}
use coco_guest_components.Ocicrypt.Encryption.{
  pubopts_key, find_encrypted, encrypt_layer, finalize_annotations, start_decryption, decrypt_layer,
}
use coco_guest_components.Ocicrypt.Encryption.Single.{
  only, sealed, wrap_one, unwrap_one, pubopts_found, add_pubopts,
}

-- The options of a layer, with the tag of its ciphertext.
abbrev pub layer_options : List ℕ → List ℕ → Text → List ℕ → LayerBlockCipherOptions
layer_options key nonce digest tag = record {
  public = record { cipher_type = aes256ctr; cipher_options = []; hmac = tag };
  private = record {
    symmetric_key = key;
    cipher_options = (nonce_key, nonce) ∷ [];
    digest = digest;
  };
}

module _ (crypto : Crypto) (laws : CryptoLaws crypto) where
  open crypto use {cipher_new, apply_keystream, mac_new, mac_update, mac_finalize}
  open laws use {takes_key, apply_twice, tag_nonempty}

  handler_is_new : new_handler crypto ≡ ok (record { key_len = 32; encrypt = false; state = none })
  unfolding new_handler new
  handler_is_new = refl

  -- The MAC of a key.
  abbrev pub mac_of : List ℕ → crypto.Mac
  mac_of key = (takes_key key).0

  handler_encrypt_lem :
      (c : AesCtrBlockCipher crypto) (ps : List (List ℕ)) (key nonce : List ℕ)
      → length key ≡ 32
      → handler_encrypt crypto c (chunks ps) aes256ctr default_options (some key) (some nonce)
        ≡ ok (
          running crypto c.key_len true (start crypto (cipher_new key nonce) [] (mac_of key) ps),
          layer_options key nonce [] [],
        )
  unfolding handler_encrypt init choose_nonce store_nonce get_opt lookup insert ◌=ₜ◌
  handler_encrypt_lem c ps key nonce h = rw ((==_iff (length key) 32).1 h, (takes_key key).1) refl

  handler_decrypt_lem :
      (c : AesCtrBlockCipher crypto) (cs : List (List ℕ)) (key nonce digest tag : List ℕ)
      (random : Option (List ℕ))
      → length key ≡ 32
      → length nonce ≡ 16
      → tag ≢ []
      → handler_decrypt crypto c (chunks cs) (layer_options key nonce digest tag) random
        ≡ ok (
          running crypto c.key_len false (start crypto (cipher_new key nonce) tag (mac_of key) cs),
          layer_options key nonce digest tag,
        )
  unfolding handler_decrypt init choose_nonce store_nonce get_opt lookup insert ◌=ₜ◌
  handler_decrypt_lem c cs key nonce digest tag random h hn ht =
      rw
        (
          (==_iff (length key) 32).1 h,
          is_empty-false tag ht,
          (==_iff (length nonce) 16).1 hn,
          (takes_key key).1,
        )
        refl

  module _ (enc : Encoding) (codes : EncodingLaws enc) where
    open enc use {base64_encode, private_to_vec, public_to_vec}
    open codes use {private_from-to, public_from-to, private-ne-nil}

    pub encrypt_layer_lem :
        (scheme : Text) (w : KeyWrapper) (ec : EncryptConfig) (ps : List (List ℕ)) (digest : Text)
        (key nonce : List ℕ)
        → length key ≡ 32
        → encrypt_layer enc crypto
            (only scheme w)
            ec
            (chunks ps)
            none
            digest
            (some key)
            (some nonce)
          ≡ ok (
            some (running crypto 32 true (start crypto (cipher_new key nonce) [] (mac_of key) ps)),
            layer_options key nonce digest [],
          )
    unfolding encrypt_layer find_encrypted lookup key_wrappers_annotations insert
    encrypt_layer_lem scheme w ec ps digest key nonce h =
        rw
          (
            handler_is_new,
            handler_encrypt_lem (record { key_len = 32; encrypt = false; state = none }) ps key
                nonce h,
          )
          refl

    start_decryption_lem :
        (cs : List (List ℕ)) (key nonce digest tag : List ℕ) (random : Option (List ℕ))
        → length key ≡ 32
        → length nonce ≡ 16
        → tag ≢ []
        → start_decryption enc crypto
            (chunks cs)
            (private_to_vec (layer_options key nonce digest tag).private)
            (public_to_vec (layer_options key nonce digest tag).public)
            random
          ≡ ok (
            running crypto 32 false (start crypto (cipher_new key nonce) tag (mac_of key) cs),
            digest,
          )
    unfolding start_decryption
    start_decryption_lem cs key nonce digest tag random h hn ht =
        rw
          (
            private_from-to (layer_options key nonce digest tag).private,
            public_from-to (layer_options key nonce digest tag).public,
            handler_is_new,
            handler_decrypt_lem (record { key_len = 32; encrypt = false; state = none }) cs key
                nonce digest tag random h hn ht,
          )
          refl

    pub finalize_lem :
        (scheme : Text) (w : KeyWrapper) (named : w.annotation_id ≢ pubopts_key)
        (ec : EncryptConfig) (k : List ℕ) (s : crypto.Cipher) (ps : List (List ℕ))
        (key nonce digest tag : List ℕ)
        → tag ≡ mac_finalize (mac_update (mac_of key) (apply_keystream s (concat ps)).0)
        → w.wrap_keys ec (private_to_vec (layer_options key nonce digest tag).private) ≡ some k
        → k ≢ []
        → finalize_annotations enc crypto
            (only scheme w)
            (layer_options key nonce digest [])
            ec
            none
            (some (running crypto 32 true (encrypted crypto s (mac_of key) ps)))
          ≡ ok (
              sealed enc codes scheme w named k
                (public_to_vec (layer_options key nonce digest tag).public))
    unfolding finalize_annotations finalized_lbco
    finalize_lem scheme w named ec k s ps key nonce digest tag e wk ne =
        rw
          (
            ← e,
            wrap_one enc codes scheme w named ec k
                (private_to_vec (layer_options key nonce digest tag).private) wk ne,
            add_pubopts enc codes scheme w named k
                (public_to_vec (layer_options key nonce digest tag).public),
          )
          refl

    pub decrypt_layer_lem :
        (scheme : Text) (w : KeyWrapper) (named : w.annotation_id ≢ pubopts_key)
        (dc : DecryptConfig) (k : List ℕ) (cs : List (List ℕ)) (key nonce digest tag : List ℕ)
        (random : Option (List ℕ))
        → length key ≡ 32
        → length nonce ≡ 16
        → tag ≢ []
        → w.probe dc.param ≡ true
        → k ≢ []
        → w.unwrap_keys dc k ≡ some (private_to_vec (layer_options key nonce digest tag).private)
        → decrypt_layer enc crypto
            (only scheme w)
            dc
            (chunks cs)
            (some (
              sealed enc codes scheme w named k
                (public_to_vec (layer_options key nonce digest tag).public)))
            false
            random
          ≡ ok (
            some
                (running crypto 32 false (start crypto (cipher_new key nonce) tag (mac_of key) cs)),
            digest,
          )
    unfolding decrypt_layer
    decrypt_layer_lem scheme w named dc k cs key nonce digest tag random h hn ht p ne e =
        let opts = layer_options key nonce digest tag in
        rw
          (
            unwrap_one enc codes scheme w named dc k (private_to_vec opts.private)
                (public_to_vec opts.public) p ne e (private-ne-nil opts.private),
            pubopts_found enc codes scheme w named k (public_to_vec opts.public),
            start_decryption_lem cs key nonce digest tag random h hn ht,
          )
          refl
