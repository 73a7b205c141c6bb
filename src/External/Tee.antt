-- ===== src/External/Tee.antt =====
-- What the event log uses of the platform: the hash functions of the crate `sha2`, and the runtime
-- measurement registers that the attester of the TEE extends.
use coco_guest_components.Common.{ℕ, ◌≡◌, Option, some, List, ◌++◌, All}
use coco_guest_components.External.Hex.{IsByte}

pub record Sha2 : Type 0 where
  pub sha256 : List ℕ → List ℕ
  pub sha384 : List ℕ → List ℕ
  pub sha512 : List ℕ → List ℕ

-- `BoxedAttester`; `none` is an error of the platform.
pub record Attester : Type 1 where
  pub State : Type 0
  -- `get_runtime_measurement(pcr)`
  pub get_runtime_measurement : State → ℕ → Option (List ℕ)
  -- `extend_runtime_measurement(digest, pcr)`
  pub extend_runtime_measurement : State → List ℕ → ℕ → Option State

-- A register holds bytes, and extending it hashes its value followed by the digest.
pub record AttesterLaws (a : Attester) (hash : List ℕ → List ℕ) : Type 0 where
  pub register_bytes :
      (s : a.State) (pcr : ℕ) (r : List ℕ) → a.get_runtime_measurement s pcr ≡ some r → All IsByte r
  pub extended :
      (s s' : a.State) (pcr : ℕ) (d r : List ℕ)
      → a.extend_runtime_measurement s d pcr ≡ some s'
      → a.get_runtime_measurement s pcr ≡ some r
      → a.get_runtime_measurement s' pcr ≡ some (hash (r ++ d))
