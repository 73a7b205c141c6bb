-- ===== src/Pull/Meta.antt =====
-- image-rs/src/image.rs and meta_store.rs: the record of images and layers, and the image that a manifest
-- and a configuration describe.
use coco_guest_components.Common.{
  Bool, false, ◌||◌, Option, none, some, List, [], ◌∷◌, ◌==◌, length, if◌then◌else◌, Result, ok,
  err,
}
use coco_guest_components.Text.{Text, ◌=ₜ◌}
use coco_guest_components.Text.Map.{insert}
use coco_guest_components.External.Host.{OciDescriptor, Manifest, ImageConfiguration}
use coco_guest_components.Auth.{AuthError}
use coco_guest_components.Signature.Failure.{Failure}
use coco_guest_components.Pull.Layer.{PullError, LayerMeta, LayerDb}

pub data ImageError : Type 0 where
  bad_reference bad_auth_info manifest_failed no_snapshot bad_configuration layer_count_mismatch
        layers_failed mount_failed unsupported_os config_failed meta_store_failed :
      ImageError
  auth_failed : AuthError → ImageError
  validation_failed : Failure → ImageError
  layer_failed : PullError → ImageError

pub record ImageMeta : Type 0 where
  pub id : Text
  pub digest : Text
  pub reference : Text
  pub image_config : ImageConfiguration
  pub signed : Bool
  pub layer_metas : List LayerMeta

-- `MetaStore`, without the snapshots
pub record MetaStore : Type 0 where
  pub image_db : List (Text × ImageMeta)
  pub layer_db : LayerDb

-- A `BTreeSet` of digests, as the list of what was put in.
unfoldable pub seen : Text → List Text → Bool
seen t [] = false
seen t (d ∷ ds) = d =ₜ t || seen t ds

-- The loop over the diff ids and, at the same positions, the layers.
unfoldable pub unique_from :
    List Text → List Text → List OciDescriptor → List OciDescriptor × List Text
unique_from digests [] layers = ([], [])
unique_from digests (diff_id ∷ diff_ids) [] = ([], [])
unique_from digests (diff_id ∷ diff_ids) (layer ∷ layers) =
    let without = unique_from digests diff_ids layers in
    let rest = unique_from (layer.digest ∷ digests) diff_ids layers in
    if seen layer.digest digests then without else (layer ∷ rest.0, diff_id ∷ rest.1)

unfoldable pub create_image_meta :
    (Text → Option ImageConfiguration)
    → Text
    → Text
    → Manifest
    → Text
    → Text
    → Result ImageError (ImageMeta × List OciDescriptor × List Text)
create_image_meta from_reader id image_url manifest image_digest image_config =
    elim (from_reader image_config) [
      | none ↦ err bad_configuration
      | some config ↦
          if length config.diff_ids == length manifest.layers
          then ok (
            record {
              id = id;
              digest = image_digest;
              reference = image_url;
              image_config = config;
              signed = false;
              layer_metas = [];
            },
            (unique_from [] config.diff_ids manifest.layers).0,
            (unique_from [] config.diff_ids manifest.layers).1,
          )
          else err layer_count_mismatch
    ]

-- A layer with the diff id at its position; there are as many of these as of those.
pub record Job : Type 0 where
  pub layer : OciDescriptor
  pub diff_id : Text

unfoldable pub jobs : List OciDescriptor → List Text → List Job
jobs [] diff_ids = []
jobs (layer ∷ layers) [] = []
jobs (layer ∷ layers) (d ∷ ds) = record { layer = layer; diff_id = d } ∷ jobs layers ds

-- `extend` of the database by the layers of an image
unfoldable pub extend_layers : List LayerMeta → LayerDb → LayerDb
extend_layers [] db = db
extend_layers (l ∷ ls) db = extend_layers ls (insert l.compressed_digest l db)

-- The store paths from the top layer down, `iter().rev()`.
unfoldable pub rev_paths : List LayerMeta → List Text → List Text
rev_paths [] paths = paths
rev_paths (l ∷ ls) paths = rev_paths ls (l.store_path ∷ paths)
