-- ===== src/KeyProvider/Wrap.antt =====
-- attestation-agent/coco_keyprovider/src/enc_mods/crypto.rs: the algorithms of the key provider, and how
-- the crate `crypto` reads them.
use coco_guest_components.Common.{ℕ, ◌≡◌, refl, Option, some, List, if◌then◌else◌}
use coco_guest_components.Text.{Text, bytes, ◌=ₜ◌}
use coco_guest_components.External.Aes.{Aes, AesLaws}
use coco_guest_components.Symmetric.{WrapType, aes256_gcm, aes256_ctr, wrap_type_from, decrypt}

pub data Algorithm : Type 0 where
  a256_gcm a256_ctr : Algorithm

-- `Display`
unfoldable pub algorithm_name : Algorithm → Text
algorithm_name a256_gcm = bytes "A256GCM"
algorithm_name a256_ctr = bytes "A256CTR"

-- `Algorithm::try_from`, or the default
unfoldable pub algorithm_or_default : Text → Algorithm
algorithm_or_default name = if name =ₜ bytes "A256CTR" then a256_ctr else a256_gcm

-- A key or an IV of a wrong length, at which the crates panic, is a failure. The IV of the second
-- algorithm has 16 bytes.
unfoldable pub encrypt : Aes → List ℕ → List ℕ → List ℕ → Algorithm → Option (List ℕ)
encrypt aes plaintext key iv a256_gcm = aes.gcm_encrypt key plaintext iv
encrypt aes plaintext key iv a256_ctr = aes.ctr_apply key plaintext iv

-- The wrap type of the same name.
abbrev pub as_wrap_type : Algorithm → WrapType
as_wrap_type a256_gcm = aes256_gcm
as_wrap_type a256_ctr = aes256_ctr

pub wrap_type_from-algorithm_name :
    (a : Algorithm) → wrap_type_from (algorithm_name a) ≡ some (as_wrap_type a)
unfolding wrap_type_from algorithm_name ◌=ₜ◌
wrap_type_from-algorithm_name a256_gcm = refl
wrap_type_from-algorithm_name a256_ctr = refl

-- What the provider encrypts, the crate `crypto` decrypts.
pub decrypt-encrypt :
    (aes : Aes)
    → AesLaws aes
    → (plaintext key iv ciphertext : List ℕ) (a : Algorithm)
    → encrypt aes plaintext key iv a ≡ some ciphertext
    → decrypt aes key ciphertext iv (as_wrap_type a) ≡ some plaintext
unfolding decrypt encrypt
decrypt-encrypt aes laws plaintext key iv ciphertext a256_gcm h =
    laws.gcm_decrypt-encrypt key plaintext iv ciphertext h
decrypt-encrypt aes laws plaintext key iv ciphertext a256_ctr h =
    laws.ctr_apply-apply key plaintext iv ciphertext h
