-- ===== src/Ocicrypt/Helpers/Encrypt.antt =====
-- ocicrypt-rs/src/helpers.rs: a configuration for encryption out of recipients and key files.
use coco_guest_components.Common.{Option, none, some, List, [], ◌∷◌, ◌++◌, Result, ok, ◌>>=◌}
use coco_guest_components.Text.{Text}
use coco_guest_components.External.Files.{Files}
use coco_guest_components.Ocicrypt.KeyWrap.{DecryptConfig, EncryptConfig, Params}
use coco_guest_components.Ocicrypt.Config.{
  Values, encrypt_with_jwe, encrypt_with_pkcs7, encrypt_with_gpg, encrypt_with_pkcs11,
}
use coco_guest_components.Ocicrypt.Helpers.{
  HelperError, Recipients, no_recipients, process_recipient_keys, unless_empty, unless_no_providers,
  create_decrypt_config,
}

module _ (files : Files) where
  -- The configuration for decryption, if there are keys.
  unfoldable pub decrypt_config_of : List Text → Result HelperError (Option DecryptConfig)
  decrypt_config_of [] = ok none
  decrypt_config_of (key ∷ keys) = do dc ← create_decrypt_config files (key ∷ keys) []; ok (some dc)

  -- Called if there are public keys or YAML texts of PKCS #11.
  unfoldable pub unless_both_empty : Values → Values → Params → Result HelperError Params
  unless_both_empty pubkeys yamls =
      unless_empty files (pubkeys ++ yamls) (encrypt_with_pkcs11 ([] ∷ []) pubkeys yamls)

  -- The builders in their order.
  unfoldable pub build_encrypt_params : Recipients → Result HelperError Params
  build_encrypt_params r = do
    param1 ← unless_empty files r.gpg_recipients (encrypt_with_gpg r.gpg_recipients []) []
    param2 ← unless_empty files r.x509s (encrypt_with_pkcs7 r.x509s) param1
    param3 ← unless_empty files r.pubkeys (encrypt_with_jwe r.pubkeys) param2
    param4 ← unless_both_empty r.pkcs11_pubkeys r.pkcs11_yamls param3
    unless_no_providers files r.key_providers param4

  -- Nothing is built without recipients.
  unfoldable pub encrypt_params_of : List Text → Result HelperError Params
  encrypt_params_of [] = ok []
  encrypt_params_of (recipient ∷ recipients) = do
    r ← process_recipient_keys files no_recipients (recipient ∷ recipients)
    build_encrypt_params r

  unfoldable pub create_encrypt_config : List Text → List Text → Result HelperError EncryptConfig
  create_encrypt_config recipients keys = do
    decrypt_config ← decrypt_config_of keys
    param ← encrypt_params_of recipients
    ok (record { param = param; decrypt_config = decrypt_config })
