-- ===== src/Decrypt/Tests.antt =====
-- A small layer through encryption and decryption.
use coco_guest_components.Common.{
  ℕ, ◌≡◌, refl, Option, none, some, List, [], ◌∷◌, concat, ok, ◌≢◌, err,
}
use coco_guest_components.Text.{bytes}
use coco_guest_components.Ocicrypt.Options.{LayerBlockCipherOptions}
use coco_guest_components.Ocicrypt.Cipher.{AesCtrBlockCipher, read_to_end}
use coco_guest_components.Ocicrypt.Cipher.Laws.{chunks, AreNonempty}
use coco_guest_components.Ocicrypt.Encryption.{Annotations, encrypt_layer, finalize_annotations}
use coco_guest_components.Ocicrypt.Encryption.Single.{only}
use coco_guest_components.Ocicrypt.Setup.{
  test_crypto, test_crypto_laws, test_encoding, test_encoding_laws,
}
use coco_guest_components.Ocicrypt.Setup.Layer.{
  wrapper, dc, ec, wrapper-Unwraps, layer, layer-AreNonempty, key, nonce, other_id,
}
use coco_guest_components.Decrypt.{decrypt_layer_data, not_ended}
use coco_guest_components.Decrypt.Ends.{decrypt_layer_data-ends}
use coco_guest_components.Decrypt.Laws.{decrypt_layer_data_lem}

decrypt_layer_data_lem_example :
    (reader finished : AesCtrBlockCipher test_crypto) × (lbco : LayerBlockCipherOptions)
    × (secret : List ℕ) × (annotations : Annotations) × (encrypt_layer test_encoding test_crypto
          (only (bytes "jwe") wrapper)
          ec
          (chunks layer)
          none
          (bytes "sha256:1")
          (some key)
          (some nonce)
        ≡ ok (some reader, lbco))
    × (read_to_end test_crypto 3 reader [] ≡ some (finished, ok secret))
    × (finalize_annotations test_encoding test_crypto
          (only (bytes "jwe") wrapper)
          lbco
          ec
          none
          (some finished)
        ≡ ok annotations)
    × ((cs : List (List ℕ)) (random : Option (List ℕ))
        → AreNonempty cs
        → concat cs ≡ secret
        → decrypt_layer_data test_encoding test_crypto
            (only (bytes "jwe") wrapper)
            (chunks cs)
            (some annotations)
            (some dc)
            random
          ≡ ok (1 ∷ 2 ∷ 3 ∷ [], bytes "sha256:1"))
decrypt_layer_data_lem_example =
    decrypt_layer_data_lem test_crypto test_crypto_laws test_encoding test_encoding_laws
      (bytes "jwe") wrapper ec dc layer (bytes "sha256:1") key nonce other_id wrapper-Unwraps
      layer-AreNonempty refl refl

decrypt_layer_data-ends_example :
    decrypt_layer_data test_encoding test_crypto
      (only (bytes "jwe") wrapper)
      (chunks layer)
      none
      (some dc)
      none
    ≢ err not_ended
decrypt_layer_data-ends_example =
    decrypt_layer_data-ends test_encoding test_crypto (only (bytes "jwe") wrapper) (chunks layer)
      none (some dc) none
