-- ===== src/Ocicrypt/Helpers.antt =====
-- ocicrypt-rs/src/helpers.rs: a configuration for decryption out of key files with passwords, and of
-- recipients. The texts are UTF-8, so that no conversion of the builders loses anything.
pub mod Laws
pub mod Encrypt
use coco_guest_components.Common.{
  ℕ, zero, suc, ◌+◌, ◌*◌, ◌-◌, ◌≡◌, ◌≢◌, refl, Bool, true, false, not, ◌&&◌, ◌||◌, Option, none,
  some, List, [], ◌∷◌, ◌++◌, ltb, leb, ◌==◌, if◌then◌else◌, Result, Checked, ok, err, ok_or,
  map_err, ◌>>=◌,
}
use coco_guest_components.Text.{Text, bytes, contains, strip_prefix, split_once, ◌=ₜ◌}
use coco_guest_components.External.Files.{Files}
use coco_guest_components.Ocicrypt.KeyWrap.{DecryptConfig, Params}
use coco_guest_components.Ocicrypt.Config.Provider.{find, take_chars, skip_chars, with_key_provider}
use coco_guest_components.Ocicrypt.Config.{
  ConfigError, Values, update_param, decrypt_with_priv_keys, decrypt_with_x509s, decrypt_with_gpg,
  decrypt_with_pkcs11,
}

pub data HelperError : Type 0 where
  read_failed unknown_protocol invalid_recipient not_a_descriptor : HelperError
  config_failed : ConfigError → HelperError

-- The six arrays of `process_recipient_keys`.
pub record Recipients : Type 0 where
  pub gpg_recipients : Values
  pub pubkeys : Values
  pub x509s : Values
  pub pkcs11_pubkeys : Values
  pub pkcs11_yamls : Values
  pub key_providers : Values

abbrev pub no_recipients : Recipients
no_recipients = record {
  gpg_recipients = [];
  pubkeys = [];
  x509s = [];
  pkcs11_pubkeys = [];
  pkcs11_yamls = [];
  key_providers = [];
}

-- The six arrays of `process_private_keyfiles`.
pub record PrivateKeys : Type 0 where
  pub gpg_secret_key_ring_files : Values
  pub gpg_secret_key_passwords : Values
  pub priv_keys : Values
  pub priv_keys_passwords : Values
  pub pkcs11_yamls : Values
  pub key_providers : Values

abbrev pub no_private_keys : PrivateKeys
no_private_keys = record {
  gpg_secret_key_ring_files = [];
  gpg_secret_key_passwords = [];
  priv_keys = [];
  priv_keys_passwords = [];
  pkcs11_yamls = [];
  key_providers = [];
}

-- A digit sequence below a bound, `none` if it is empty or has another character.
unfoldable pub i32_digits : ℕ → Text → Option ℕ
i32_digits value [] = some value
i32_digits value (x ∷ t) =
    let more = i32_digits (value * 10 + (x - b'0')) t in
    if leb b'0' x && leb x b'9' then more else none

unfoldable pub within : Bool → Option ℕ → Option (Bool × ℕ)
within negative none = none
within negative (some n) =
    if leb n (if negative then 2147483648 else 2147483647) then some (negative, n) else none

-- `parse::<i32>()`, as a sign and an absolute value
unfoldable pub parse_i32 : Text → Option (Bool × ℕ)
parse_i32 [] = none
parse_i32 (x ∷ []) = within false (i32_digits 0 (x ∷ []))
parse_i32 (x ∷ y ∷ t) =
    if x == b'-'
    then within true (i32_digits 0 (y ∷ t))
    else if x == b'+'
    then within false (i32_digits 0 (y ∷ t))
    else within false (i32_digits 0 (x ∷ y ∷ t))

module _ (files : Files) where
  -- One recipient, by its protocol.
  unfoldable pub add_recipient : Text → Text → Recipients → Result HelperError Recipients
  add_recipient protocol value r =
      if protocol =ₜ bytes "pgp"
      then ok (record r { gpg_recipients = r.gpg_recipients ++ value ∷ [] })
      else if protocol =ₜ bytes "jwe"
      then (ok_or (files.read value) read_failed >>= λ contents.
          ok (record r { pubkeys = r.pubkeys ++ contents ∷ [] }))
      else if protocol =ₜ bytes "pkcs7"
      then (ok_or (files.read value) read_failed >>= λ contents.
          ok (record r { x509s = r.x509s ++ contents ∷ [] }))
      else if protocol =ₜ bytes "pkcs11"
      then (ok_or (files.read value) read_failed >>= λ contents. ok (record r {
        pkcs11_yamls = r.pkcs11_yamls ++ contents ∷ [];
        pkcs11_pubkeys = r.pkcs11_pubkeys ++ contents ∷ [];
      }))
      else if protocol =ₜ bytes "provider"
      then ok (record r { key_providers = r.key_providers ++ value ∷ [] })
      else err unknown_protocol

  -- `process_recipient_keys`, with the arrays so far
  unfoldable pub process_recipient_keys : Recipients → List Text → Result HelperError Recipients
  process_recipient_keys r [] = ok r
  process_recipient_keys r (recipient ∷ rest) = elim (find b':' recipient) [
    | none ↦ err invalid_recipient
    | some index ↦ do
      r' ← add_recipient (take_chars index recipient) (skip_chars (index + 1) recipient) r
      process_recipient_keys r' rest
  ]

  unfoldable pub process_x509_certs : List Text → Result HelperError Values
  process_x509_certs [] = ok []
  process_x509_certs (key ∷ keys) =
      let skipped = process_x509_certs keys in
      if contains b':' key || not (files.exists key)
      then skipped
      else do contents ← ok_or (files.read key) read_failed; rest ← skipped; ok (contents ∷ rest)

  -- After `fd=` a text that is not a number makes `unwrap` panic, which is `not_a_descriptor` here.
  unfoldable pub process_pwd_string : Text → Result HelperError (List ℕ)
  process_pwd_string pwd_string = elim (strip_prefix (bytes "file=") pwd_string) [
    | some pwd ↦ ok_or (files.read pwd) read_failed
    | none ↦ elim (strip_prefix (bytes "pass=") pwd_string) [
      | some pwd ↦ ok pwd
      | none ↦ elim (strip_prefix (bytes "fd=") pwd_string) [
        | none ↦ ok pwd_string
        | some pwd ↦ elim (parse_i32 pwd) [
          | none ↦ err not_a_descriptor
          | some (negative, fd) ↦ ok_or (files.read_fd negative fd) read_failed
        ]
      ]
    ]
  ]

  -- The content and the password of a key file.
  unfoldable pub key_and_password : Text → Result HelperError (List ℕ × List ℕ)
  key_and_password keyfile_and_pwd = elim (split_once b':' keyfile_and_pwd) [
    | some (file, pass) ↦ do
      contents ← ok_or (files.read file) read_failed
      password ← process_pwd_string pass
      ok (contents, password)
    | none ↦ do contents ← ok_or (files.read keyfile_and_pwd) read_failed; ok (contents, [])
  ]

  abbrev pub add_key : List ℕ → List ℕ → PrivateKeys → PrivateKeys
  add_key content password k = record k {
    pkcs11_yamls = k.pkcs11_yamls ++ content ∷ [];
    priv_keys = k.priv_keys ++ content ∷ [];
    priv_keys_passwords = k.priv_keys_passwords ++ password ∷ [];
    gpg_secret_key_ring_files = k.gpg_secret_key_ring_files ++ content ∷ [];
    gpg_secret_key_passwords = k.gpg_secret_key_passwords ++ password ∷ [];
  }

  -- `process_private_keyfiles`, with the arrays so far
  unfoldable pub process_private_keyfiles : PrivateKeys → List Text → Result HelperError PrivateKeys
  process_private_keyfiles k [] = ok k
  process_private_keyfiles k (keyfile_and_pwd ∷ rest) =
      elim (strip_prefix (bytes "provider:") keyfile_and_pwd) [
        | some provider ↦
            process_private_keyfiles (record k { key_providers = k.key_providers ++ provider ∷ [] })
              rest
        | none ↦ do
          (content, password) ← key_and_password keyfile_and_pwd
          process_private_keyfiles (add_key content password k) rest
      ]

  -- A builder is called for values that are not empty.
  abbrev pub unless_empty :
      Values → (Params → Params × Checked ConfigError) → Params → Result HelperError Params
  unless_empty [] builder param = ok param
  unless_empty (v ∷ values) builder param =
      let (param', result) = builder param in
      elim result [ err e ↦ err (config_failed e) | ok _ ↦ ok param' ]

  abbrev pub unless_no_providers : Values → Params → Result HelperError Params
  unless_no_providers providers = unless_empty providers (with_key_provider providers)

  -- The builders in their order, on what was read.
  unfoldable pub build_decrypt_config : Values → PrivateKeys → Result HelperError DecryptConfig
  build_decrypt_config x509s k = do
    param1 ←
        unless_empty k.gpg_secret_key_ring_files
          (decrypt_with_gpg k.gpg_secret_key_ring_files k.gpg_secret_key_passwords) []
    param2 ← unless_empty x509s (decrypt_with_x509s x509s) param1
    param3 ←
        unless_empty k.priv_keys (decrypt_with_priv_keys k.priv_keys k.priv_keys_passwords) param2
    param4 ← unless_empty k.pkcs11_yamls (decrypt_with_pkcs11 ([] ∷ []) k.pkcs11_yamls) param3
    param5 ← unless_no_providers k.key_providers param4
    ok (record { param = param5 })

  unfoldable pub create_decrypt_config : List Text → List Text → Result HelperError DecryptConfig
  create_decrypt_config keys dec_recipients = do
    recipients ← process_recipient_keys no_recipients dec_recipients
    x509_from_keys ← process_x509_certs keys
    private_keys ← process_private_keyfiles no_private_keys keys
    build_decrypt_config (recipients.x509s ++ x509_from_keys) private_keys
