-- ===== src/Symmetric.antt =====
-- attestation-agent/deps/crypto/src: symmetric.rs over rust/aes256gcm.rs and rust/aes256ctr.rs, as far
-- as no additional data is authenticated.
use coco_guest_components.Common.{ℕ, Option, none, some, List, if◌then◌else◌}
use coco_guest_components.Text.{Text, bytes, ◌=ₜ◌}
use coco_guest_components.External.Aes.{Aes}

pub data WrapType : Type 0 where
  aes256_gcm aes256_ctr : WrapType

-- `WrapType::try_from`
unfoldable pub wrap_type_from : Text → Option WrapType
wrap_type_from name =
    if name =ₜ bytes "A256GCM"
    then some aes256_gcm
    else if name =ₜ bytes "A256CTR"
    then some aes256_ctr
    else none

module _ (aes : Aes) where
  unfoldable pub decrypt : List ℕ → List ℕ → List ℕ → WrapType → Option (List ℕ)
  decrypt key ciphertext iv aes256_gcm = aes.gcm_decrypt key ciphertext iv
  decrypt key ciphertext iv aes256_ctr = aes.ctr_apply key ciphertext iv

  unfoldable pub encrypt : List ℕ → List ℕ → List ℕ → WrapType → Option (List ℕ)
  encrypt key plaintext iv aes256_gcm = aes.gcm_encrypt key plaintext iv
  encrypt key plaintext iv aes256_ctr = aes.ctr_apply key plaintext iv
