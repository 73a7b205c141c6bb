-- ===== src/Ocicrypt/Encryption/Laws.antt =====
-- Layers that are encrypted, annotated and decrypted by ocicrypt-rs/src/encryption.rs.
use coco_guest_components.Common.{
  ℕ, ◌<◌, ◌≡◌, refl, ap, ◌∙◌, ◌≢◌, true, false, Option, none, some, List, [], concat, length, ok,
}
use coco_guest_components.Text.{Text}
use coco_guest_components.Text.Laws.{text_eq_refl}
use coco_guest_components.External.Crypto.{Crypto, CryptoLaws}
use coco_guest_components.External.Encoding.{Encoding, EncodingLaws}
use coco_guest_components.Ocicrypt.Options.{LayerBlockCipherOptions}
use coco_guest_components.Ocicrypt.Cipher.{AesCtrBlockCipher, read_to_end}
use coco_guest_components.Ocicrypt.Cipher.Laws.{
  chunks, AreNonempty, running, start, encrypted, decrypted, verdict, encrypt_run, decrypt_run,
}
use coco_guest_components.Ocicrypt.KeyWrap.{DecryptConfig, EncryptConfig, KeyWrapper}
use coco_guest_components.Ocicrypt.Encryption.{
  Annotations, pubopts_key, encrypt_layer, finalize_annotations, decrypt_layer,
}
use coco_guest_components.Ocicrypt.Encryption.Single.{Unwraps, only, sealed}
use coco_guest_components.Ocicrypt.Encryption.RoundTrip.{
  layer_options, mac_of, encrypt_layer_lem, finalize_lem, decrypt_layer_lem,
}

module _ (crypto : Crypto) (laws : CryptoLaws crypto) (enc : Encoding)
    (codes : EncodingLaws enc) where
  open crypto use {cipher_new, apply_keystream, mac_update, mac_finalize}
  open laws use {apply_twice, tag_nonempty}
  open enc use {private_to_vec, public_to_vec}

  accepted :
      (s : crypto.Cipher) (m : crypto.Mac) (plain seen : List ℕ)
      → seen ≡ (apply_keystream s plain).0
      → verdict crypto
          (mac_finalize (mac_update m (apply_keystream s plain).0))
          (mac_update m seen)
          (apply_keystream s seen).0
        ≡ ok plain
  accepted s m plain seen e =
      rw
        (
          e,
          text_eq_refl (mac_finalize (mac_update m (apply_keystream s plain).0)),
          apply_twice s plain,
        )
        refl

  -- The layer can be decrypted from these annotations: to the digest, and to the plaintext.
  abbrev pub Decrypts :
      Text → KeyWrapper → DecryptConfig → Annotations → Text → List (List ℕ) → List ℕ → Type 0
  Decrypts scheme w dc annotations digest cs plain =
      (random : Option (List ℕ)) (g : ℕ)
      → length cs < g
      → (reader finished : AesCtrBlockCipher crypto) × (decrypt_layer enc crypto (only scheme w) dc
            (chunks cs) (some annotations) false random
          ≡ ok (some reader, digest))
        × (read_to_end crypto g reader [] ≡ some (finished, ok plain))

  -- With one key wrapper, not named as the public options, that unwraps what it wraps, encrypting a
  -- layer that is not encrypted, under a key of 32 bytes and a nonce of 16, succeeds: reading the
  -- encrypting reader to its end gives a ciphertext as long as the layer, and then the annotations
  -- can be finalized. Decrypting that ciphertext from them, in whatever chunks either side reads,
  -- gives the digest that was stored, and reading to the end gives the layer.
  pub layer_round_trip :
      (scheme : Text) (w : KeyWrapper) (ec : EncryptConfig) (dc : DecryptConfig)
      (ps : List (List ℕ)) (digest : Text) (key nonce : List ℕ) (f : ℕ)
      → w.annotation_id ≢ pubopts_key
      → Unwraps w ec dc
      → AreNonempty ps
      → length key ≡ 32
      → length nonce ≡ 16
      → length ps < f
      → (reader finished : AesCtrBlockCipher crypto) × (lbco : LayerBlockCipherOptions)
        × (secret : List ℕ) × (annotations : Annotations) × (encrypt_layer enc crypto
              (only scheme w)
              ec
              (chunks ps)
              none
              digest
              (some key)
              (some nonce)
            ≡ ok (some reader, lbco))
        × (read_to_end crypto f reader [] ≡ some (finished, ok secret))
        × (length secret ≡ length (concat ps))
        × (finalize_annotations enc crypto (only scheme w) lbco ec none (some finished)
            ≡ ok annotations)
        × ((cs : List (List ℕ))
            → AreNonempty cs
            → concat cs ≡ secret
            → Decrypts scheme w dc annotations digest cs (concat ps))
  layer_round_trip scheme w ec dc ps digest key nonce f named (p, works) h hk hn lt =
      let s = cipher_new key nonce in
      let m = mac_of crypto laws key in
      let secret = (apply_keystream s (concat ps)).0 in
      let tag = mac_finalize (mac_update m secret) in
      let opts = layer_options key nonce digest tag in
      let (k, wk, ne, uk) = works (private_to_vec opts.private) in
      (
        running crypto 32 true (start crypto s [] m ps),
        running crypto 32 true (encrypted crypto s m ps),
        layer_options key nonce digest [],
        secret,
        sealed enc codes scheme w named k (public_to_vec opts.public),
        encrypt_layer_lem crypto laws enc codes scheme w ec ps digest key nonce hk,
        encrypt_run crypto laws f 32 s [] m ps [] h lt,
        laws.length-apply s (concat ps),
        finalize_lem crypto laws enc codes scheme w named ec k s ps key nonce digest tag refl wk ne,
        λ cs hc e random g lg. (
          running crypto 32 false (start crypto s tag m cs),
          running crypto 32 false (decrypted crypto s tag m cs),
          decrypt_layer_lem crypto laws enc codes scheme w named dc k cs key nonce digest tag random
              hk hn (tag_nonempty (mac_update m secret)) p ne uk,
          decrypt_run crypto laws g 32 s tag m cs [] hc lg
              ∙ ap (λ v. some (running crypto 32 false (decrypted crypto s tag m cs), v))
                  (accepted s m (concat ps) (concat cs) e),
        ),
      )
