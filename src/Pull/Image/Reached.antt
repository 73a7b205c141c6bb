-- ===== src/Pull/Image/Reached.antt =====
-- The records that a client with a signature validator reaches.
use coco_guest_components.Common.{ℕ, ◌≡◌, Option, some, List, []}
use coco_guest_components.Text.{Text}
use coco_guest_components.External.Crypto.{Crypto}
use coco_guest_components.External.Encoding.{Encoding}
use coco_guest_components.External.Host.{Host}
use coco_guest_components.Ocicrypt.KeyWrap.{DecryptConfig, KeyWrappers}
use coco_guest_components.Signature.Env.{Env}
use coco_guest_components.Signature.Validator.{SignatureValidator}
use coco_guest_components.Pull.Layer.{Site}
use coco_guest_components.Pull.Image.{Client, pull_image}
use coco_guest_components.Pull.Meta.{Job}
use coco_guest_components.Pull.Image.Trust.{IsTrusted, elsewhere, not_in_empty}
use coco_guest_components.Pull.Image.Pulls.{pull_image_keeps}

module _ (env : Env) (enc : Encoding) (crypto : Crypto) (host : Host env.oci)
    (wrappers : KeyWrappers) (random_nonce : Option (List ℕ)) (validator : SignatureValidator) where
  abbrev C : Type 0
  C = Client env enc crypto host wrappers random_nonce

  abbrev Trusted : C → Type 0
  Trusted = IsTrusted env enc crypto host wrappers random_nonce validator

  -- What happens to a client: images are pulled, in any order, with any results, and the world outside
  -- and its layer store change in between.
  pub data Reached : C → Type 0 where
    start :
        (w : C)
        → w.signature_validator ≡ some validator
        → w.meta_store.image_db ≡ []
        → w.meta_store.layer_db ≡ []
        → Reached w
    pulls :
        {w : C} (dc : Option DecryptConfig) (order : List (ℕ × Job) → List (ℕ × Job))
        (url dir : Text) (auth_info : Option Text)
        → Reached w
        → Reached
            (pull_image env enc crypto host wrappers random_nonce dc order url dir auth_info w).0
    changes : {w : C} (site : Site host) → Reached w → Reached (record w { site = site })

  -- Whatever images are pulled by a client that has a validator and starts with an empty record: every
  -- image of the record passed the signature check under its recorded reference and digest, and every
  -- layer of it, and of the record of layers, was unpacked into its store path from content of the
  -- recorded digest.
  pub Reached-IsTrusted : {w : C} → Reached w → Trusted w
  Reached-IsTrusted (start w configured no_images no_layers) = record {
    configured = configured;
    images = λ id image e. absurd (
        not_in_empty env enc crypto host wrappers random_nonce validator w.meta_store.image_db id
          image no_images e);
    layers = λ key meta e. absurd (
        not_in_empty env enc crypto host wrappers random_nonce validator w.meta_store.layer_db key
          meta no_layers e);
  }
  Reached-IsTrusted (pulls dc order url dir auth_info r) =
      pull_image_keeps env enc crypto host wrappers random_nonce validator dc order url dir
        auth_info _ (Reached-IsTrusted r)
  Reached-IsTrusted (changes {w} site r) =
      elsewhere env enc crypto host wrappers random_nonce validator w site (Reached-IsTrusted r)
