-- ===== src/Decrypt.antt =====
-- image-rs/src/decrypt.rs: the decryption of an image's layer as a whole. The two media types of
-- plain layers are constants of the crate oci-client.
pub mod Laws
pub mod Ends
pub mod Configured
mod Tests
use coco_guest_components.Common.{
  ℕ, suc, Bool, true, false, not, ◌||◌, Option, none, some, List, [], length, if◌then◌else◌, Result,
  Checked, ok, err, ensure, ok_or, map_err, ◌>>=◌, ◌>>◌,
}
use coco_guest_components.Text.{Text, bytes, ◌=ₜ◌}
use coco_guest_components.External.Crypto.{Crypto}
use coco_guest_components.External.Encoding.{Encoding}
use coco_guest_components.Ocicrypt.Cipher.{IoError, IoEvent, AesCtrBlockCipher, read_to_end}
use coco_guest_components.Ocicrypt.Helpers.{HelperError}
use coco_guest_components.Ocicrypt.KeyWrap.{DecryptConfig, KeyWrappers}
use coco_guest_components.Ocicrypt.Encryption.{
  LayerError, Annotations, decrypt_layer, decrypt_layer_key_opts_data, async_decrypt_layer,
}

pub data DecryptError : Type 0 where
  layer_error : LayerError → DecryptError
  read_error : IoError → DecryptError
  config_error : HelperError → DecryptError
  missing_layer_decryptor no_decrypt_config empty_config unencrypted_media_type not_ended :
      DecryptError

pub record Decryptor : Type 0 where
  pub media_type : Text
  pub encrypted : Bool

abbrev pub media_type_layer_enc : Text
media_type_layer_enc = bytes "application/vnd.oci.image.layer.v1.tar+encrypted"

abbrev pub media_type_layer_gzip_enc : Text
media_type_layer_gzip_enc = bytes "application/vnd.oci.image.layer.v1.tar+gzip+encrypted"

abbrev pub media_type_layer_non_distributable_enc : Text
media_type_layer_non_distributable_enc =
    bytes "application/vnd.oci.image.layer.nondistributable.v1.tar+encrypted"

abbrev pub media_type_layer_non_distributable_gzip_enc : Text
media_type_layer_non_distributable_gzip_enc =
    bytes "application/vnd.oci.image.layer.nondistributable.v1.tar+gzip+encrypted"

-- `from_media_type`, with the crate's media types of a plain and of a compressed layer
unfoldable pub from_media_type : Text → Text → Text → Decryptor
from_media_type plain gzip media_type =
    if media_type =ₜ media_type_layer_enc || media_type =ₜ media_type_layer_non_distributable_enc
    then record { media_type = plain; encrypted = true }
    else if media_type =ₜ media_type_layer_gzip_enc
        || media_type =ₜ media_type_layer_non_distributable_gzip_enc
    then record { media_type = gzip; encrypted = true }
    else record { media_type = []; encrypted = false }

module _ (enc : Encoding) (crypto : Crypto) where
  -- What reading to the end gives; the reader ends after as many calls as it has events, and one.
  unfoldable pub read_layer : List IoEvent → AesCtrBlockCipher crypto → Result DecryptError (List ℕ)
  read_layer encrypted_layer decryptor =
      elim (read_to_end crypto (suc (length encrypted_layer)) decryptor []) [
        | none ↦ err not_ended
        | some (_, result) ↦ map_err read_error result
      ]

  unfoldable pub decrypt_layer_data :
      KeyWrappers
      → List IoEvent
      → Option Annotations
      → Option DecryptConfig
      → Option (List ℕ)
      → Result DecryptError (List ℕ × Text)
  decrypt_layer_data ws encrypted_layer annotations decrypt_config random_nonce = do
    dc ← ok_or decrypt_config no_decrypt_config
    (layer_decryptor, dec_digest) ←
        map_err layer_error
          (decrypt_layer enc crypto ws dc encrypted_layer annotations false random_nonce)
    decryptor ← ok_or layer_decryptor missing_layer_decryptor
    plaintext_data ← read_layer encrypted_layer decryptor
    ok (plaintext_data, dec_digest)

  -- `get_decrypt_key`, behind `create_decrypt_config`
  unfoldable pub get_decrypt_key :
      KeyWrappers
      → Decryptor
      → Option Annotations
      → Option DecryptConfig
      → Result DecryptError (List ℕ)
  get_decrypt_key ws d annotations decrypt_config = do
    ensure d.encrypted unencrypted_media_type
    dc ← ok_or decrypt_config no_decrypt_config
    map_err layer_error (decrypt_layer_key_opts_data enc ws dc annotations)

  unfoldable pub async_get_plaintext_layer :
      List IoEvent
      → Option Annotations
      → List ℕ
      → Option (List ℕ)
      → Result DecryptError (AesCtrBlockCipher crypto)
  async_get_plaintext_layer encrypted_layer annotations priv_opts_data random_nonce = do
    (layer_decryptor, _) ←
        map_err layer_error
          (async_decrypt_layer enc crypto encrypted_layer annotations priv_opts_data random_nonce)
    ok layer_decryptor
