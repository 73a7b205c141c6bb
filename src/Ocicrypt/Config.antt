-- ===== src/Ocicrypt/Config.antt =====
-- ocicrypt-rs/src/config.rs: building the parameters for the key wrappers. A builder leaves what it
-- changed before it fails.
pub mod Provider
pub mod Laws
use coco_guest_components.Common.{
  ℕ, Bool, Option, none, some, List, [], ◌∷◌, ◌++◌, ◌==◌, length, if◌then◌else◌, Result, Checked,
  ok, err,
}
use coco_guest_components.Text.{Text, bytes}
use coco_guest_components.Text.Map.{lookup, insert}
use coco_guest_components.Ocicrypt.KeyWrap.{Params}

pub data ConfigError : Type 0 where
  value_is_none lengths_differ : ConfigError

abbrev pub Values : Type 0
Values = List (List ℕ)

-- `update_param` of both configurations: `entry(key).and_modify(extend).or_insert(value)`
unfoldable pub update_param : Text → Values → Params → Params × Checked ConfigError
update_param key [] param = (param, err value_is_none)
update_param key (v ∷ value) param = elim (lookup key param) [
  | some old ↦ (insert key (old ++ v ∷ value) param, ok tt)
  | none ↦ (insert key (v ∷ value) param, ok tt)
]

-- Two updates, the second only if the first succeeds.
unfoldable pub update_both : Text → Values → Text → Values → Params → Params × Checked ConfigError
update_both key value key' value' param =
    let (param', result) = update_param key value param in
    elim result [ err e ↦ (param', err e) | ok _ ↦ update_param key' value' param' ]

abbrev pub privkeys : Text
privkeys = bytes "privkeys"

abbrev pub privkeys_passwords : Text
privkeys_passwords = bytes "privkeys-passwords"

unfoldable pub decrypt_with_priv_keys : Values → Values → Params → Params × Checked ConfigError
decrypt_with_priv_keys priv_keys priv_key_passwords param =
    if length priv_keys == length priv_key_passwords
    then update_both privkeys priv_keys privkeys_passwords priv_key_passwords param
    else (param, err lengths_differ)

unfoldable pub decrypt_with_x509s : Values → Params → Params × Checked ConfigError
decrypt_with_x509s x509s param = update_param (bytes "x509s") x509s param

unfoldable pub decrypt_with_gpg : Values → Values → Params → Params × Checked ConfigError
decrypt_with_gpg gpg_priv_keys gpg_priv_pwds param =
    update_both (bytes "gpg-privatekeys") gpg_priv_keys (bytes "gpg-privatekeys-passwords")
      gpg_priv_pwds param

unfoldable pub decrypt_with_pkcs11 : Values → Values → Params → Params × Checked ConfigError
decrypt_with_pkcs11 pkcs11_config pkcs11_yaml param =
    update_both (bytes "pkcs11-config") pkcs11_config (bytes "pkcs11-yamls") pkcs11_yaml param

unfoldable pub encrypt_with_jwe : Values → Params → Params × Checked ConfigError
encrypt_with_jwe pubkeys param = update_param (bytes "pubkeys") pubkeys param

unfoldable pub encrypt_with_pkcs7 : Values → Params → Params × Checked ConfigError
encrypt_with_pkcs7 x509s param = update_param (bytes "x509s") x509s param

unfoldable pub encrypt_with_gpg : Values → List ℕ → Params → Params × Checked ConfigError
encrypt_with_gpg gpg_recipients gpg_pub_ring_file param =
    update_both (bytes "gpg-recipients") gpg_recipients (bytes "gpg-pubkeyringfile")
      (gpg_pub_ring_file ∷ []) param

-- Nothing is done for values that are empty.
unfoldable pub pkcs11_yamls : Values → Values → Params → Params × Checked ConfigError
pkcs11_yamls pkcs11_config [] param = (param, ok tt)
pkcs11_yamls pkcs11_config (y ∷ yaml) param =
    update_both (bytes "pkcs11-config") pkcs11_config (bytes "pkcs11-yamls") (y ∷ yaml) param

unfoldable pub encrypt_with_pkcs11 :
    Values → Values → Values → Params → Params × Checked ConfigError
encrypt_with_pkcs11 pkcs11_config [] pkcs11_yaml param =
    pkcs11_yamls pkcs11_config pkcs11_yaml param
encrypt_with_pkcs11 pkcs11_config (k ∷ pkcs11_pubkeys) pkcs11_yaml param =
    let (param', result) = update_param (bytes "pkcs11-pubkeys") (k ∷ pkcs11_pubkeys) param in
    elim result [ err e ↦ (param', err e) | ok _ ↦ pkcs11_yamls pkcs11_config pkcs11_yaml param' ]
