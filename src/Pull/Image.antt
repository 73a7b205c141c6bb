-- ===== src/Pull/Image.antt =====
-- image-rs/src/image.rs: pulling an image into a bundle, with the record of the images and layers that
-- were pulled, in a build without nydus. The snapshotter is the default one of the configuration.

pub mod Gate
pub mod Trust
pub mod Pulls
pub mod Reached
pub mod Unique
use coco_guest_components.Common.{
  ℕ, zero, suc, ◌+◌, ◌-◌, Bool, true, false, not, ◌||◌, Option, none, some, List, [], ◌∷◌, ◌++◌,
  ◌==◌, map, length, if◌then◌else◌, Result, Checked, ok, err, ok_or, ensure, map_err,
}
use coco_guest_components.Text.{Text, bytes, ◌=ₜ◌, split_once}
use coco_guest_components.Text.Map.{lookup, insert}
use coco_guest_components.External.Crypto.{Crypto}
use coco_guest_components.External.Encoding.{Encoding}
use coco_guest_components.External.Host.{OciDescriptor, Manifest, ImageConfiguration, Host}
use coco_guest_components.Ocicrypt.KeyWrap.{DecryptConfig, KeyWrappers}
use coco_guest_components.Auth.{
  RegistryAuth, anonymous, basic, Auths, AuthError, credential_from_auth_config,
}
use coco_guest_components.Signature.Env.{Env}
use coco_guest_components.Signature.Failure.{Failure}
use coco_guest_components.Signature.Validator.{SignatureValidator, check_image_signature}
use coco_guest_components.Steps.{Steps, ◌>>=◌, lift}
use coco_guest_components.Pull.Layers.{async_pull_layers, enumerate}
use coco_guest_components.Pull.Layer.{PullError, LayerMeta, LayerDb, Site, pull_layer_with_retry}
use coco_guest_components.Pull.Meta.{
  ImageError, ImageMeta, MetaStore, seen, unique_from, create_image_meta, Job, jobs, extend_layers,
  rev_paths, bad_reference, bad_auth_info, manifest_failed, no_snapshot, bad_configuration,
  layer_count_mismatch, layers_failed, mount_failed, unsupported_os, config_failed,
  meta_store_failed, auth_failed, validation_failed, layer_failed,
}

module _ (env : Env) (enc : Encoding) (crypto : Crypto) (host : Host env.oci)
    (wrappers : KeyWrappers) (random_nonce : Option (List ℕ)) where
  open env.oci use {Reference, try_from}
  open host use {
    State, pull_manifest_and_config, configuration_from_reader, mount, create_runtime_config,
    write_meta_store,
  }

  -- `ImageClient`, and the outside world; `snapshot` tells whether the default snapshotter is there
  pub record Client : Type 0 where
    pub registry_auth : Option Auths
    pub signature_validator : Option SignatureValidator
    pub snapshot : Bool
    pub meta_store : MetaStore
    pub site : Site host

  abbrev pub P : Type 0 → Type 0
  P A = Steps Client ImageError A

  -- A call of the outside world.
  abbrev pub call : {A : Type 0} → (State → State × A) → P A
  call f w = let (s, a) = f w.site.net in (record w { site = record w.site { net = s } }, ok a)

  abbrev pub must : Bool → ImageError → P (Unit {0})
  must b e = lift (ensure b e)

  -- The input, then the registry's auth file, then anonymously.
  unfoldable pub image_auth :
      Option Text → Option Auths → Reference → Result ImageError RegistryAuth
  image_auth (some input_auth) registry_auth reference = elim (split_once b':' input_auth) [
    | none ↦ err bad_auth_info
    | some (username, password) ↦ ok (basic username password)
  ]
  image_auth none none reference = ok anonymous
  image_auth none (some auths) reference =
      map_err auth_failed (credential_from_auth_config env.oci env.base64_decode reference auths)

  unfoldable pub create_bundle : ImageMeta → Text → P Text
  create_bundle image_data bundle_dir = do
    mounted ←
        call
          (λ s. mount s (rev_paths image_data.layer_metas []) (bundle_dir ++ b'/' ∷ bytes "rootfs"))
    _ ← must mounted mount_failed
    _ ← must image_data.image_config.is_linux unsupported_os
    written ← call (λ s. create_runtime_config s image_data.image_config bundle_dir)
    _ ← must written config_failed
    lift (ok image_data.id)

  unfoldable pub validate : Text → Text → P (Unit {0})
  validate image_url image_digest w = elim w.signature_validator [
    | none ↦ (w, ok tt)
    | some validator ↦
        (w, map_err validation_failed (check_image_signature env validator image_url image_digest))
  ]

  -- The pulls of layers, in some order, each with its position.
  unfoldable pub pull_each :
      Option DecryptConfig
      → Reference
      → LayerDb
      → List (ℕ × Job)
      → Site host
      → Site host × List (ℕ × Result PullError LayerMeta)
  pull_each dc reference db [] site = (site, [])
  pull_each dc reference db ((i, job) ∷ rest) site =
      let (site', r) =
        pull_layer_with_retry enc crypto host wrappers dc random_nonce db reference job.layer
          job.diff_id site in
      let (site'', rs) = pull_each dc reference db rest site' in (site'', (i, r) ∷ rs)

  -- `async_pull_layers` of the client: downloads share only the counter of the layer store, and are
  -- taken one after the other in the order that `order` makes of them.
  unfoldable pub pull_layers :
      Option DecryptConfig
      → (List (ℕ × Job) → List (ℕ × Job))
      → Reference
      → List OciDescriptor
      → List Text
      → P (List LayerMeta)
  pull_layers dc order reference layers diff_ids w =
      let (site, completions) =
        pull_each dc reference w.meta_store.layer_db (order (enumerate 0 (jobs layers diff_ids)))
          w.site in
      (record w { site = site }, map_err layer_failed (async_pull_layers completions))

  unfoldable pub store_layers : List LayerMeta → P (Unit {0})
  store_layers layer_metas w = (
    record w {
      meta_store = record w.meta_store {
        layer_db = extend_layers layer_metas w.meta_store.layer_db;
      };
    },
    ok tt,
  )

  unfoldable pub store_image : ImageMeta → P (Unit {0})
  store_image image_data w = (
    record w {
      meta_store = record w.meta_store {
        image_db = insert image_data.id image_data w.meta_store.image_db;
      };
    },
    ok tt,
  )

  -- The parts of a pull of an image that is not in the database, from the last to the first: it is
  -- bundled and recorded, its layers are pulled and recorded, and before all it is validated.
  unfoldable pub write_meta : Text → P Text
  write_meta image_id = do
    written ← call write_meta_store
    _ ← must written meta_store_failed
    lift (ok image_id)

  unfoldable pub record_image : ImageMeta → Text → P Text
  record_image image_data image_id = do _ ← store_image image_data; write_meta image_id

  unfoldable pub bundle_image : ImageMeta → Text → P Text
  bundle_image image_data bundle_dir = do
    image_id ← create_bundle image_data bundle_dir
    record_image image_data image_id

  unfoldable pub with_layers : ImageMeta → ℕ → Text → List LayerMeta → P Text
  with_layers meta unique_layers_len bundle_dir layer_metas = do
    _ ← store_layers layer_metas
    _ ← must (unique_layers_len == length layer_metas) layers_failed
    bundle_image (record meta { layer_metas = layer_metas }) bundle_dir

  unfoldable pub pull_unique :
      Option DecryptConfig
      → (List (ℕ × Job) → List (ℕ × Job))
      → Reference
      → Text
      → ImageMeta × List OciDescriptor × List Text
      → P Text
  pull_unique dc order reference bundle_dir (meta, unique_layers, unique_diff_ids) = do
    layer_metas ← pull_layers dc order reference unique_layers unique_diff_ids
    with_layers meta (length unique_layers) bundle_dir layer_metas

  unfoldable pub pull_new :
      Option DecryptConfig
      → (List (ℕ × Job) → List (ℕ × Job))
      → Reference
      → Text
      → Text
      → Manifest
      → Text
      → Text
      → P Text
  pull_new dc order reference image_url bundle_dir manifest image_digest image_config = do
    _ ← validate image_url image_digest
    created ← lift (
        create_image_meta configuration_from_reader manifest.config_digest image_url manifest
          image_digest image_config)
    pull_unique dc order reference bundle_dir created

  unfoldable pub pull_known_or_new :
      Option DecryptConfig
      → (List (ℕ × Job) → List (ℕ × Job))
      → Reference
      → Text
      → Text
      → Manifest
      → Text
      → Text
      → P Text
  pull_known_or_new dc order reference image_url bundle_dir manifest image_digest image_config w =
      elim (lookup manifest.config_digest w.meta_store.image_db) [
        | some image_data ↦ create_bundle image_data bundle_dir w
        | none ↦
            pull_new dc order reference image_url bundle_dir manifest image_digest image_config w
      ]

  -- `PullClient::pull_manifest`
  unfoldable pub pull_manifest : Reference → RegistryAuth → P (Manifest × Text × Text)
  pull_manifest reference auth = do
    pulled ← call (λ s. pull_manifest_and_config s reference auth)
    lift (ok_or pulled manifest_failed)

  -- The image of a manifest, with the default snapshotter.
  unfoldable pub pull_pulled :
      Option DecryptConfig
      → (List (ℕ × Job) → List (ℕ × Job))
      → Reference
      → Text
      → Text
      → Manifest × Text × Text
      → P Text
  pull_pulled dc order reference image_url bundle_dir (manifest, image_digest, image_config) w =
      if w.snapshot
      then pull_known_or_new dc order reference image_url bundle_dir manifest image_digest
          image_config w
      else (w, err no_snapshot)

  unfoldable pub pull_with :
      Option DecryptConfig
      → (List (ℕ × Job) → List (ℕ × Job))
      → Text
      → Text
      → Reference
      → RegistryAuth
      → P Text
  pull_with dc order image_url bundle_dir reference auth = do
    pulled ← pull_manifest reference auth
    pull_pulled dc order reference image_url bundle_dir pulled

  unfoldable pub pull_image :
      Option DecryptConfig → (List (ℕ × Job) → List (ℕ × Job)) → Text → Text → Option Text → P Text
  pull_image dc order image_url bundle_dir auth_info w = elim (try_from image_url) [
    | none ↦ (w, err bad_reference)
    | some reference ↦ elim (image_auth auth_info w.registry_auth reference) [
      | err e ↦ (w, err e)
      | ok auth ↦ pull_with dc order image_url bundle_dir reference auth w
    ]
  ]
