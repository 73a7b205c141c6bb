-- ===== src/Decrypt/Laws.antt =====
-- The decryption of an encrypted layer by image-rs/src/decrypt.rs.
use coco_guest_components.Common.{
  ℕ, suc, ◌≡◌, refl, ap, ◌≢◌, Option, none, some, List, [], ◌∷◌, concat, length, ok, arith,
}
use coco_guest_components.Text.{Text}
use coco_guest_components.External.Crypto.{Crypto, CryptoLaws}
use coco_guest_components.External.Encoding.{Encoding, EncodingLaws}
use coco_guest_components.Ocicrypt.Options.{LayerBlockCipherOptions}
use coco_guest_components.Ocicrypt.Cipher.{AesCtrBlockCipher, read_to_end}
use coco_guest_components.Ocicrypt.Cipher.Laws.{chunks, AreNonempty}
use coco_guest_components.Ocicrypt.KeyWrap.{DecryptConfig, EncryptConfig, KeyWrapper}
use coco_guest_components.Ocicrypt.Encryption.{
  Annotations, pubopts_key, encrypt_layer, finalize_annotations,
}
use coco_guest_components.Ocicrypt.Encryption.Single.{Unwraps, only}
use coco_guest_components.Ocicrypt.Encryption.Laws.{Decrypts, layer_round_trip}
use coco_guest_components.Decrypt.{read_layer, decrypt_layer_data}

length-chunks : (cs : List (List ℕ)) → length (chunks cs) ≡ length cs
length-chunks [] = refl
length-chunks (c ∷ cs) = ap suc (length-chunks cs)

module _ (crypto : Crypto) (laws : CryptoLaws crypto) (enc : Encoding)
    (codes : EncodingLaws enc) where
  read_layer_lem :
      (cs : List (List ℕ)) (reader finished : AesCtrBlockCipher crypto) (plain : List ℕ)
      → read_to_end crypto (suc (length (chunks cs))) reader [] ≡ some (finished, ok plain)
      → read_layer enc crypto (chunks cs) reader ≡ ok plain
  unfolding read_layer
  read_layer_lem cs reader finished plain e = rw (e, read_layer) refl

  data_of_layer :
      (scheme : Text) (w : KeyWrapper) (dc : DecryptConfig) (annotations : Annotations)
      (digest : Text) (cs : List (List ℕ)) (plain : List ℕ) (random : Option (List ℕ))
      → Decrypts crypto laws enc codes scheme w dc annotations digest cs plain
      → decrypt_layer_data enc crypto
          (only scheme w)
          (chunks cs)
          (some annotations)
          (some dc)
          random
        ≡ ok (plain, digest)
  unfolding decrypt_layer_data
  data_of_layer scheme w dc annotations digest cs plain random d =
      let (reader, finished, started, ended) =
        d random (suc (length (chunks cs))) (omega (arith, length-chunks cs)) in
      rw (started, read_layer_lem cs reader finished plain ended) refl

  -- With one key wrapper, not named as the public options, that unwraps what it wraps: a layer that
  -- is encrypted under a key of 32 bytes and a nonce of 16, read to its end and annotated, is turned
  -- by `decrypt_layer_data` into the layer and the digest, however its ciphertext is read.
  pub decrypt_layer_data_lem :
      (scheme : Text) (w : KeyWrapper) (ec : EncryptConfig) (dc : DecryptConfig)
      (ps : List (List ℕ)) (digest : Text) (key nonce : List ℕ)
      → w.annotation_id ≢ pubopts_key
      → Unwraps w ec dc
      → AreNonempty ps
      → length key ≡ 32
      → length nonce ≡ 16
      → (reader finished : AesCtrBlockCipher crypto) × (lbco : LayerBlockCipherOptions)
        × (secret : List ℕ) × (annotations : Annotations) × (encrypt_layer enc crypto
              (only scheme w)
              ec
              (chunks ps)
              none
              digest
              (some key)
              (some nonce)
            ≡ ok (some reader, lbco))
        × (read_to_end crypto (suc (length ps)) reader [] ≡ some (finished, ok secret))
        × (finalize_annotations enc crypto (only scheme w) lbco ec none (some finished)
            ≡ ok annotations)
        × ((cs : List (List ℕ)) (random : Option (List ℕ))
            → AreNonempty cs
            → concat cs ≡ secret
            → decrypt_layer_data enc crypto
                (only scheme w)
                (chunks cs)
                (some annotations)
                (some dc)
                random
              ≡ ok (concat ps, digest))
  decrypt_layer_data_lem scheme w ec dc ps digest key nonce named works h hk hn =
      let (reader, finished, lbco, secret, annotations, began, all, _, sealed, back) =
        layer_round_trip crypto laws enc codes scheme w ec dc ps digest key nonce (suc (length ps))
          named works h hk hn (omega arith) in
      (
        reader,
        finished,
        lbco,
        secret,
        annotations,
        began,
        all,
        sealed,
        λ cs random hc e.
            data_of_layer scheme w dc annotations digest cs (concat ps) random (back cs hc e),
      )
