-- ===== src/External/Encoding.antt =====
-- The crates `base64` and `serde_json`, for what is stored beside an encrypted layer.
use coco_guest_components.Common.{ℕ, ◌≡◌, ◌≢◌, Option, some, List, []}
use coco_guest_components.Text.{Text, IsFree}
use coco_guest_components.Ocicrypt.Options.{
  PrivateLayerBlockCipherOptions, PublicLayerBlockCipherOptions,
}

pub record Encoding : Type 0 where
  -- `base64::engine::general_purpose::STANDARD`
  pub base64_encode : List ℕ → Text
  pub base64_decode : Text → Option (List ℕ)
  -- `serde_json::to_vec` and `from_slice` at the two types
  pub private_to_vec : PrivateLayerBlockCipherOptions → List ℕ
  pub private_from_slice : List ℕ → Option PrivateLayerBlockCipherOptions
  pub public_to_vec : PublicLayerBlockCipherOptions → List ℕ
  pub public_from_slice : List ℕ → Option PublicLayerBlockCipherOptions

-- Decoding gives back what was encoded; the base64 alphabet has no comma, and only nothing is encoded
-- as nothing; a JSON object is not empty.
pub record EncodingLaws (e : Encoding) : Type 0 where
  pub base64_decode-encode : (bs : List ℕ) → e.base64_decode (e.base64_encode bs) ≡ some bs
  pub base64-IsFree : (bs : List ℕ) → IsFree b',' (e.base64_encode bs)
  pub base64-ne-nil : (bs : List ℕ) → bs ≢ [] → e.base64_encode bs ≢ []
  pub private_from-to :
      (o : PrivateLayerBlockCipherOptions) → e.private_from_slice (e.private_to_vec o) ≡ some o
  pub public_from-to :
      (o : PublicLayerBlockCipherOptions) → e.public_from_slice (e.public_to_vec o) ≡ some o
  pub private-ne-nil : (o : PrivateLayerBlockCipherOptions) → e.private_to_vec o ≢ []
