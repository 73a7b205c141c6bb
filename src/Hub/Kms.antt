-- ===== src/Hub/Kms.antt =====
-- confidential-data-hub/kms/src/plugins/mod.rs: the client of a provider, by the provider's name, in a
-- build with all providers. The errors of the hub are one type.
use coco_guest_components.Common.{Option, none, some, if◌then◌else◌, err, ok_or}
use coco_guest_components.Text.{Text, bytes, ◌=ₜ◌}
use coco_guest_components.External.Kms.{KmsClients}
use coco_guest_components.EventLog.Algorithm.{to_lowercase}
use coco_guest_components.Steps.{Steps}

pub data HubError : Type 0 where
  unsupported_provider kms_client_failed kms_failed base64_failed decrypt_failed unknown_wrap_type
        bad_annotation_packet illegal_kid secret_not_utf8 malformed_secret version_error
        illegal_credential_path write_failed :
      HubError

pub data DecryptorProvider : Type 0 where
  aliyun ehsm : DecryptorProvider

pub data VaultProvider : Type 0 where
  kbs_vault aliyun_vault : VaultProvider

-- `try_from` of the provider's name, whatever the case of its letters
unfoldable pub decryptor_provider : Text → Option DecryptorProvider
decryptor_provider name =
    if to_lowercase name =ₜ bytes "aliyun"
    then some aliyun
    else if to_lowercase name =ₜ bytes "ehsm"
    then some ehsm
    else none

unfoldable pub vault_provider : Text → Option VaultProvider
vault_provider name =
    if to_lowercase name =ₜ bytes "kbs"
    then some kbs_vault
    else if to_lowercase name =ₜ bytes "aliyun"
    then some aliyun_vault
    else none

module _ (kms : KmsClients) where
  open kms use {State, Json, Decrypter, Getter}

  abbrev pub H : Type 0 → Type 0
  H A = Steps State HubError A

  -- A call of a client, whose failure is an error of the hub.
  abbrev pub ask : {A : Type 0} → HubError → (State → State × Option A) → H A
  ask e call s = let (s', o) = call s in (s', ok_or o e)

  unfoldable pub new_decryptor : Text → Json → H Decrypter
  new_decryptor provider_name settings s = elim (decryptor_provider provider_name) [
    | none ↦ (s, err unsupported_provider)
    | some aliyun ↦ ask kms_client_failed (λ s. kms.aliyun_decrypter s settings) s
    | some ehsm ↦ ask kms_client_failed (λ s. kms.ehsm_decrypter s settings) s
  ]

  unfoldable pub new_getter : Text → Json → H Getter
  new_getter provider_name settings s = elim (vault_provider provider_name) [
    | none ↦ (s, err unsupported_provider)
    | some kbs_vault ↦ ask kms_client_failed kms.kbc_client s
    | some aliyun_vault ↦ ask kms_client_failed (λ s. kms.aliyun_getter s settings) s
  ]
