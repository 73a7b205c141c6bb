-- ===== src/Hub/Secret.antt =====
-- confidential-data-hub/hub/src/secret: sealed secrets, as envelopes and as names in a vault.
pub mod Laws
use coco_guest_components.Common.{
  ℕ, not, Option, none, some, List, [], ◌∷◌, ◌++◌, if◌then◌else◌, Result, ok, err, ok_or, ensure,
}
use coco_guest_components.Text.{Text, bytes, split, ◌=ₜ◌}
use coco_guest_components.Text.Utf8.{from_utf8}
use coco_guest_components.External.Aes.{Aes}
use coco_guest_components.External.Kms.{KmsClients}
use coco_guest_components.External.Packets.{Base64, Serde}
use coco_guest_components.Symmetric.{WrapType, decrypt}
use coco_guest_components.Steps.{Steps, ◌>>=◌, lift}
use coco_guest_components.Hub.Kms.{
  HubError, kms_failed, base64_failed, decrypt_failed, secret_not_utf8, malformed_secret,
  version_error, H, ask, new_decryptor, new_getter,
}

-- `VERSION`
abbrev pub version : Text
version = bytes "0.1.0"

pub record EnvelopeSecret (Json : Type 0) : Type 0 where
  pub key_id : Text
  pub encrypted_key : Text
  pub encrypted_data : Text
  pub wrap_type : WrapType
  pub iv : Text
  pub provider : Text
  pub provider_settings : Json
  pub annotations : Json

pub record VaultSecret (Json : Type 0) : Type 0 where
  pub name : Text
  pub provider : Text
  pub provider_settings : Json
  pub annotations : Json

pub data SecretContent (Json : Type 0) : Type 0 where
  envelope : EnvelopeSecret Json → SecretContent Json
  vault : VaultSecret Json → SecretContent Json

pub record Secret (Json : Type 0) : Type 0 where
  pub version : Text
  pub content : SecretContent Json

-- The third of four sections.
unfoldable pub body_section : List Text → Result HubError Text
body_section (_ ∷ _ ∷ body ∷ _ ∷ []) = ok body
body_section [] = err malformed_secret
body_section (_ ∷ []) = err malformed_secret
body_section (_ ∷ _ ∷ []) = err malformed_secret
body_section (_ ∷ _ ∷ _ ∷ []) = err malformed_secret
body_section (_ ∷ _ ∷ _ ∷ _ ∷ _ ∷ _) = err malformed_secret

module _ (kms : KmsClients) (aes : Aes) (base64 : Base64) (serde : Serde (Secret kms.Json)) where
  open kms use {Json}

  unfoldable pub unseal_envelope : EnvelopeSecret Json → H kms (List ℕ)
  unseal_envelope secret = do
    enc_dek ← lift (ok_or (base64.decode secret.encrypted_key) base64_failed)
    provider ← new_decryptor kms secret.provider secret.provider_settings
    dek ← ask kms kms_failed (λ s. kms.decrypt s provider enc_dek secret.key_id secret.annotations)
    iv ← lift (ok_or (base64.decode secret.iv) base64_failed)
    encrypted_data ← lift (ok_or (base64.decode secret.encrypted_data) base64_failed)
    lift (ok_or (decrypt aes dek encrypted_data iv secret.wrap_type) decrypt_failed)

  unfoldable pub unseal_vault : VaultSecret Json → H kms (List ℕ)
  unseal_vault secret = do
    provider ← new_getter kms secret.provider secret.provider_settings
    ask kms kms_failed (λ s. kms.get_secret s provider secret.name secret.annotations)

  unfoldable pub unseal_content : SecretContent Json → H kms (List ℕ)
  unseal_content (envelope secret) = unseal_envelope secret
  unseal_content (vault secret) = unseal_vault secret

  unfoldable pub unseal : Secret Json → H kms (List ℕ)
  unseal secret = do
    _ ← lift (ensure (secret.version =ₜ version) version_error)
    unseal_content secret.content

  unfoldable pub from_signed_base64_string : Text → Result HubError (Secret Json)
  from_signed_base64_string secret = elim (body_section (split b'.' secret)) [
    | err e ↦ err e
    | ok body ↦ elim (base64.url_safe_decode body) [
      | none ↦ err malformed_secret
      | some secret_json ↦ ok_or (serde.from_slice secret_json) malformed_secret
    ]
  ]

  unfoldable pub to_signed_base64_string : Secret Json → Text
  to_signed_base64_string secret =
      bytes "sealed"
      ++ b'.'
        ∷ (bytes "fakejwsheader"
            ++ b'.'
              ∷ (base64.url_safe_encode (serde.to_string secret) ++ b'.' ∷ bytes "fakesignature"))

  unfoldable pub unseal_secret : List ℕ → H kms (List ℕ)
  unseal_secret secret = do
    secret_string ← lift (ok_or (from_utf8 secret) secret_not_utf8)
    secret ← lift (from_signed_base64_string secret_string)
    unseal secret
