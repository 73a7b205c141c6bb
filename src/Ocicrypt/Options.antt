-- ===== src/Ocicrypt/Options.antt =====
-- ocicrypt-rs/src/blockcipher/mod.rs: what is stored beside an encrypted layer, publicly and wrapped.
use coco_guest_components.Common.{ℕ, Option, none, some, List, []}
use coco_guest_components.Text.{Text}
use coco_guest_components.Text.Map.{lookup}

pub record PrivateLayerBlockCipherOptions : Type 0 where
  pub symmetric_key : List ℕ
  pub cipher_options : List (Text × List ℕ)
  pub digest : Text

pub record PublicLayerBlockCipherOptions : Type 0 where
  pub cipher_type : Text
  pub cipher_options : List (Text × List ℕ)
  pub hmac : List ℕ

pub record LayerBlockCipherOptions : Type 0 where
  pub public : PublicLayerBlockCipherOptions
  pub private : PrivateLayerBlockCipherOptions

-- `Default`
abbrev pub default_public : PublicLayerBlockCipherOptions
default_public = record { cipher_type = []; cipher_options = []; hmac = [] }

abbrev pub default_options : LayerBlockCipherOptions
default_options = record {
  public = default_public;
  private = record { symmetric_key = []; cipher_options = []; digest = [] };
}

-- The public option is preferred.
unfoldable pub get_opt : LayerBlockCipherOptions → Text → Option (List ℕ)
get_opt opts key = elim (lookup key opts.public.cipher_options) [
  | some v ↦ some v
  | none ↦ lookup key opts.private.cipher_options
]
