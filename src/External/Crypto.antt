-- ===== src/External/Crypto.antt =====
-- The crates `aes`, `ctr`, `hmac` and `sha2`, as a stream cipher and an incremental MAC.
use coco_guest_components.Common.{ℕ, ◌≡◌, ◌≢◌, Option, some, List, [], ◌++◌, length}

pub record Crypto : Type 1 where
  pub Cipher : Type 0
  pub Mac : Type 0
  -- `Aes256Ctr::new(key, nonce)`
  pub cipher_new : List ℕ → List ℕ → Cipher
  -- `apply_keystream`: the buffer afterwards and the cipher's next state
  pub apply_keystream : Cipher → List ℕ → List ℕ × Cipher
  -- `HmacSha256::new_from_slice(key)`
  pub mac_new : List ℕ → Option Mac
  pub mac_update : Mac → List ℕ → Mac
  pub mac_finalize : Mac → List ℕ

-- A stream cipher works byte by byte and undoes itself; a MAC sees only the bytes, not their chunks,
-- takes every key and yields a tag that is not empty.
pub record CryptoLaws (c : Crypto) : Type 0 where
  pub apply-append :
      (s : c.Cipher) (xs ys : List ℕ)
      → c.apply_keystream s (xs ++ ys) ≡ (
        (c.apply_keystream s xs).0 ++ (c.apply_keystream (c.apply_keystream s xs).1 ys).0,
        (c.apply_keystream (c.apply_keystream s xs).1 ys).1,
      )
  pub apply-nil : (s : c.Cipher) → c.apply_keystream s [] ≡ ([], s)
  pub length-apply : (s : c.Cipher) (xs : List ℕ) → length (c.apply_keystream s xs).0 ≡ length xs
  pub apply_twice :
      (s : c.Cipher) (xs : List ℕ) → (c.apply_keystream s (c.apply_keystream s xs).0).0 ≡ xs
  pub update-append :
      (m : c.Mac) (xs ys : List ℕ) → c.mac_update m (xs ++ ys) ≡ c.mac_update (c.mac_update m xs) ys
  pub update-nil : (m : c.Mac) → c.mac_update m [] ≡ m
  pub takes_key : (key : List ℕ) → (m : c.Mac) × (c.mac_new key ≡ some m)
  pub tag_nonempty : (m : c.Mac) → c.mac_finalize m ≢ []
