-- ===== src/External/Packets.antt =====
-- The crates `base64` and `serde_json`, at the types that the confidential data hub reads.
use coco_guest_components.Common.{ℕ, ◌≡◌, Option, some, List}
use coco_guest_components.Text.{Text, IsFree}

-- The engines `STANDARD` and `URL_SAFE_NO_PAD`.
pub record Base64 : Type 0 where
  pub encode : List ℕ → Text
  pub decode : Text → Option (List ℕ)
  pub url_safe_encode : List ℕ → Text
  pub url_safe_decode : Text → Option (List ℕ)

-- Decoding gives back what was encoded, and neither alphabet has a dot.
pub record Base64Laws (b : Base64) : Type 0 where
  pub decode-encode : (bs : List ℕ) → b.decode (b.encode bs) ≡ some bs
  pub url_safe_decode-encode : (bs : List ℕ) → b.url_safe_decode (b.url_safe_encode bs) ≡ some bs
  pub url_safe-IsFree : (bs : List ℕ) → IsFree b'.' (b.url_safe_encode bs)

-- JSON of a type.
pub record Serde (A : Type 0) : Type 0 where
  pub to_string : A → Text
  pub from_slice : List ℕ → Option A

pub record SerdeLaws {A : Type 0} (s : Serde A) : Type 0 where
  pub from_slice-to_string : (a : A) → s.from_slice (s.to_string a) ≡ some a

-- `KeyProviderInput` as far as a key is wrapped: the options, and the parameters of the encryption by
-- the names of key providers.
pub record KeyProviderInput : Type 0 where
  pub optsdata : Option Text
  pub ec : Option (List (Text × List Text))
