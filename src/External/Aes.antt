-- ===== src/External/Aes.antt =====
-- The crates `aes_gcm` and `ctr`: AES-256 in two modes, by key, data and IV.
use coco_guest_components.Common.{ℕ, ◌≡◌, Option, some, List}

-- `none` is an error, or a key or an IV of a wrong length.
pub record Aes : Type 0 where
  pub gcm_encrypt : List ℕ → List ℕ → List ℕ → Option (List ℕ)
  pub gcm_decrypt : List ℕ → List ℕ → List ℕ → Option (List ℕ)
  -- the keystream applied, which is its own inverse
  pub ctr_apply : List ℕ → List ℕ → List ℕ → Option (List ℕ)

pub record AesLaws (aes : Aes) : Type 0 where
  pub gcm_decrypt-encrypt :
      (key plaintext iv ciphertext : List ℕ)
      → aes.gcm_encrypt key plaintext iv ≡ some ciphertext
      → aes.gcm_decrypt key ciphertext iv ≡ some plaintext
  pub ctr_apply-apply :
      (key plaintext iv ciphertext : List ℕ)
      → aes.ctr_apply key plaintext iv ≡ some ciphertext
      → aes.ctr_apply key ciphertext iv ≡ some plaintext
