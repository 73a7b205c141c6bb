-- ===== src/Ocicrypt/Encryption.antt =====
-- ocicrypt-rs/src/encryption.rs: a layer is encrypted under a fresh key, and the key is wrapped into
-- the layer's annotations.
pub mod Wrapping
pub mod Single
pub mod RoundTrip
pub mod Laws
pub mod Rewrap
use coco_guest_components.Common.{
  ℕ, Bool, true, false, not, ◌||◌, Option, none, some, List, [], ◌∷◌, ◌++◌, if◌then◌else◌, is_some,
  get_or, Result, Checked, ok, err, ensure, ok_or, map_err, ◌>>=◌, ◌>>◌,
}
use coco_guest_components.Text.{Text, bytes, is_empty, split, strip_prefix}
use coco_guest_components.Text.Map.{lookup, insert}
use coco_guest_components.External.Crypto.{Crypto}
use coco_guest_components.External.Encoding.{Encoding}
use coco_guest_components.Ocicrypt.Options.{
  LayerBlockCipherOptions, PrivateLayerBlockCipherOptions, PublicLayerBlockCipherOptions,
  default_public, default_options,
}
use coco_guest_components.Ocicrypt.Cipher.{
  CipherError, IoEvent, AesCtrBlockCipher, aes256ctr, new_handler, handler_encrypt, handler_decrypt,
  finalized_lbco,
}
use coco_guest_components.Ocicrypt.KeyWrap.{
  DecryptConfig, EncryptConfig, KeyWrapper, KeyWrappers, key_wrappers_annotations, get_key_wrapper,
}
pub use coco_guest_components.Ocicrypt.Wrap.{
  LayerError, wrapper_failed, empty_wrapped_key, empty_annotation, bad_base64, no_suitable_key,
  wrapper_not_supported, no_keys_wrapped, no_encryptor, missing_private_key, no_key_unwrapper,
  no_decrypt_config, bad_json, Annotations, pubopts_key, has_none, provider_prefix,
}
unfoldable pub use coco_guest_components.Ocicrypt.Wrap.{
  append_annotation, pre_wrap_key, unwrap_first, pre_unwrap_key, get_layer_pub_opts, first_provider,
  get_layer_key_opts, try_wrappers, decrypt_layer_key_opts_data, wrap_all, with_pubopts,
}

module _ (enc : Encoding) where
  open enc use {
    base64_encode, base64_decode, private_to_vec, private_from_slice, public_to_vec,
    public_from_slice,
  }

  module _ (crypto : Crypto) where
    -- `finalize_annotations`; `lbco` is the finalizer's field, `finalizer` the encrypting reader.
    unfoldable pub finalize_annotations :
        KeyWrappers
        → LayerBlockCipherOptions
        → EncryptConfig
        → Option Annotations
        → Option (AesCtrBlockCipher crypto)
        → Result LayerError Annotations
    finalize_annotations ws lbco ec annotations none = do
      wrapped ← wrap_all enc ws ec (get_or [] annotations) [] (key_wrappers_annotations ws) [] false
      with_pubopts enc [] wrapped
    finalize_annotations ws lbco ec annotations (some finalizer) = do
      final ← map_err LayerError.cipher (finalized_lbco crypto finalizer lbco)
      wrapped ←
          wrap_all enc ws ec (get_or [] annotations) (private_to_vec final.private)
            (key_wrappers_annotations ws) [] false
      with_pubopts enc (public_to_vec final.public) wrapped

    -- The loop of `encrypt_layer`: does the layer already have wrapped keys?
    unfoldable pub find_encrypted :
        KeyWrappers
        → EncryptConfig
        → Option Annotations
        → List (Text × Text)
        → Bool
        → Result LayerError Bool
    find_encrypted ws ec annotations [] encrypted = ok encrypted
    find_encrypted ws ec annotations ((annotations_id, _) ∷ rest) encrypted =
        let skip = find_encrypted ws ec annotations rest encrypted in
        let found = find_encrypted ws ec annotations rest true in
        if not (is_some (lookup annotations_id (get_or [] annotations))) then skip else do
          dc ← ok_or ec.decrypt_config no_decrypt_config
          _ ← decrypt_layer_key_opts_data enc ws dc annotations
          _ ← get_layer_pub_opts enc (get_or [] annotations)
          found

    -- `encrypt_layer`, with the random bytes that it draws
    unfoldable pub encrypt_layer :
        KeyWrappers
        → EncryptConfig
        → List IoEvent
        → Option Annotations
        → Text
        → Option (List ℕ)
        → Option (List ℕ)
        → Result LayerError (Option (AesCtrBlockCipher crypto) × LayerBlockCipherOptions)
    encrypt_layer ws ec layer_reader annotations digest random_key random_nonce = do
      encrypted ← find_encrypted ws ec annotations (key_wrappers_annotations ws) false
      if encrypted then ok (none, default_options) else do
        lbch ← map_err LayerError.cipher (new_handler crypto)
        (lbch', lbco) ← map_err LayerError.cipher (
            handler_encrypt crypto lbch layer_reader aes256ctr default_options random_key
              random_nonce)
        ok (some lbch', record lbco { private = record lbco.private { digest = digest } })

    -- The end of `decrypt_layer` and of `async_decrypt_layer`.
    unfoldable pub start_decryption :
        List IoEvent
        → List ℕ
        → List ℕ
        → Option (List ℕ)
        → Result LayerError (AesCtrBlockCipher crypto × Text)
    start_decryption layer_reader priv_opts_data pub_opts_data random_nonce = do
      priv_opts ← ok_or (private_from_slice priv_opts_data) bad_json
      pub_opts ← ok_or (public_from_slice pub_opts_data) bad_json
      lbch ← map_err LayerError.cipher (new_handler crypto)
      (lbch', opts) ← map_err LayerError.cipher (
          handler_decrypt crypto lbch layer_reader
            (record { public = pub_opts; private = priv_opts }) random_nonce)
      ok (lbch', opts.private.digest)

    unfoldable pub decrypt_layer :
        KeyWrappers
        → DecryptConfig
        → List IoEvent
        → Option Annotations
        → Bool
        → Option (List ℕ)
        → Result LayerError (Option (AesCtrBlockCipher crypto) × Text)
    decrypt_layer ws dc layer_reader annotations unwrap_only random_nonce = do
      priv_opts_data ← decrypt_layer_key_opts_data enc ws dc annotations
      pub_opts_data ← get_layer_pub_opts enc (get_or [] annotations)
      if unwrap_only then ok (none, []) else do
        (lbch, digest) ← start_decryption layer_reader priv_opts_data pub_opts_data random_nonce
        ok (some lbch, digest)

    unfoldable pub async_decrypt_layer :
        List IoEvent
        → Option Annotations
        → List ℕ
        → Option (List ℕ)
        → Result LayerError (AesCtrBlockCipher crypto × Text)
    async_decrypt_layer layer_reader annotations priv_opts_data random_nonce = do
      pub_opts_data ← get_layer_pub_opts enc (get_or [] annotations)
      start_decryption layer_reader priv_opts_data pub_opts_data random_nonce
