-- ===== src/Decrypt/Configured.antt =====
-- image-rs/src/decrypt.rs: the operations of a decryptor that take the configuration as a text, the one
-- key file that a layer is decrypted with.
use coco_guest_components.Common.{
  ℕ, not, Option, none, some, List, [], ◌∷◌, Result, ok, ensure, map_err, ◌>>=◌, ◌>>◌,
}
use coco_guest_components.Text.{Text, is_empty}
use coco_guest_components.External.Crypto.{Crypto}
use coco_guest_components.External.Encoding.{Encoding}
use coco_guest_components.External.Files.{Files}
use coco_guest_components.Ocicrypt.Cipher.{IoEvent}
use coco_guest_components.Ocicrypt.Encryption.{Annotations}
use coco_guest_components.Ocicrypt.Helpers.{create_decrypt_config}
use coco_guest_components.Ocicrypt.KeyWrap.{KeyWrappers}
use coco_guest_components.Decrypt.{
  DecryptError, config_error, empty_config, unencrypted_media_type, Decryptor, get_decrypt_key,
  decrypt_layer_data,
}

abbrev pub keys_of : Option Text → List Text
keys_of none = []
keys_of (some decrypt_config) = decrypt_config ∷ []

module _ (enc : Encoding) (crypto : Crypto) (files : Files) (ws : KeyWrappers) (d : Decryptor)
    (annotations : Option Annotations) where
  -- `get_decrypt_key`, with the parsing of the configuration
  unfoldable pub configured_decrypt_key : Option Text → Result DecryptError (List ℕ)
  configured_decrypt_key decrypt_config = do
    ensure d.encrypted unencrypted_media_type
    dc ← map_err config_error (create_decrypt_config files (keys_of decrypt_config) [])
    get_decrypt_key enc crypto ws d annotations (some dc)

  unfoldable pub get_plaintext_layer :
      List IoEvent → Text → Option (List ℕ) → Result DecryptError (List ℕ)
  get_plaintext_layer encrypted_layer decrypt_config random_nonce = do
    ensure d.encrypted unencrypted_media_type
    ensure (not (is_empty decrypt_config)) empty_config
    dc ← map_err config_error (create_decrypt_config files (decrypt_config ∷ []) [])
    (decrypted_data, _) ←
        decrypt_layer_data enc crypto ws encrypted_layer annotations (some dc) random_nonce
    ok decrypted_data
