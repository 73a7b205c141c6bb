-- ===== src/Hub/Secret/Laws.antt =====
-- The text that a sealed secret is signed as, and its reading.
use coco_guest_components.Common.{◌≡◌, ap, [], ◌∷◌, ◌++◌, ok, arith}
use coco_guest_components.Text.{Text, IsFree, bytes, split}
use coco_guest_components.Text.Split.{split-append}
use coco_guest_components.External.Aes.{Aes}
use coco_guest_components.External.Kms.{KmsClients}
use coco_guest_components.External.Packets.{Base64, Base64Laws, Serde, SerdeLaws}
use coco_guest_components.Hub.Secret.{
  Secret, body_section, from_signed_base64_string, to_signed_base64_string,
}

module _ (kms : KmsClients) (aes : Aes) (base64 : Base64) (serde : Serde (Secret kms.Json))
    (encodes : Base64Laws base64) (reads : SerdeLaws serde) where
  sections :
      (body : Text)
      → IsFree b'.' body
      → split b'.' (
          bytes "sealed"
          ++ b'.' ∷ (bytes "fakejwsheader" ++ b'.' ∷ (body ++ b'.' ∷ bytes "fakesignature")))
        ≡ bytes "sealed" ∷ bytes "fakejwsheader" ∷ body ∷ bytes "fakesignature" ∷ []
  unfolding split
  sections body free =
      ap (λ rest. bytes "sealed" ∷ bytes "fakejwsheader" ∷ rest)
        (split-append b'.' body (bytes "fakesignature") free)

  split-to_signed :
      (secret : Secret kms.Json)
      → split b'.' (to_signed_base64_string kms aes base64 serde secret)
        ≡ bytes "sealed"
          ∷ bytes "fakejwsheader"
          ∷ base64.url_safe_encode (serde.to_string secret)
          ∷ bytes "fakesignature"
          ∷ []
  unfolding to_signed_base64_string
  split-to_signed secret =
      sections (base64.url_safe_encode (serde.to_string secret))
        (encodes.url_safe-IsFree (serde.to_string secret))

  -- The text that a secret is signed as is read back as that secret.
  pub from_signed-to_signed :
      (secret : Secret kms.Json)
      → from_signed_base64_string kms aes base64 serde
          (to_signed_base64_string kms aes base64 serde secret)
        ≡ ok secret
  unfolding from_signed_base64_string body_section
  from_signed-to_signed secret = ground (
    arith,
    split-to_signed secret,
    encodes.url_safe_decode-encode (serde.to_string secret),
    reads.from_slice-to_string secret,
  )
