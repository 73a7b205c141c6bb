-- ===== src/Pull/Image/Pulls.antt =====
-- What pulling an image does to the record of a client with a signature validator.
use coco_guest_components.Auth.{RegistryAuth}
use coco_guest_components.Common.{
  if_holds, ℕ, ◌≡◌, refl, sym, subst, Option, none, some, List, ◌==◌, length, All, Result, ok, err,
  arith,
}
use coco_guest_components.Text.{Text}
use coco_guest_components.Text.Map.{lookup}
use coco_guest_components.External.Crypto.{Crypto}
use coco_guest_components.External.Encoding.{Encoding}
use coco_guest_components.External.Host.{OciDescriptor, Manifest, Host}
use coco_guest_components.Ocicrypt.KeyWrap.{DecryptConfig, KeyWrappers}
use coco_guest_components.Signature.Env.{Env}
use coco_guest_components.Signature.Validator.{SignatureValidator, check_image_signature}
use coco_guest_components.Steps.{◌>>=◌, lift, after_keeps}
use coco_guest_components.Pull.Layer.{LayerMeta}
use coco_guest_components.Pull.Image.{
  Client, must, create_bundle, validate, pull_layers, store_layers, store_image, pull_new,
  pull_known_or_new, pull_image, write_meta, record_image, bundle_image, with_layers, pull_unique,
  pull_manifest, pull_pulled, pull_with, image_auth,
}
use coco_guest_components.Pull.Meta.{
  ImageError, ImageMeta, Job, create_image_meta, layers_failed, bad_reference,
}
use coco_guest_components.Pull.Image.Gate.{IsUnpacked, pull_layers_ok}
use coco_guest_components.Pull.Image.Trust.{
  IsTrusted, IsValidated, elsewhere, store_image_keeps, store_layers_keeps, bundle_keeps,
  write_meta_keeps, create_image_meta_ok, validate_same, validate_ok, pull_layers_keeps,
}

module _ (env : Env) (enc : Encoding) (crypto : Crypto) (host : Host env.oci)
    (wrappers : KeyWrappers) (random_nonce : Option (List ℕ)) (validator : SignatureValidator) where
  abbrev C : Type 0
  C = Client env enc crypto host wrappers random_nonce

  abbrev Trusted : C → Type 0
  Trusted = IsTrusted env enc crypto host wrappers random_nonce validator

  abbrev bundled : ImageMeta → Text → C → C × Result ImageError Text
  bundled = create_bundle env enc crypto host wrappers random_nonce

  module _ (image : ImageMeta)
      (v : IsValidated env enc crypto host wrappers random_nonce validator image.id image) where
    record_image_keeps :
        (id : Text) (w : C)
        → Trusted w
        → Trusted (record_image env enc crypto host wrappers random_nonce image id w).0
    unfolding record_image
    record_image_keeps id w t =
        after_keeps Trusted (store_image env enc crypto host wrappers random_nonce image w)
          (λ _. write_meta env enc crypto host wrappers random_nonce id)
          (store_image_keeps env enc crypto host wrappers random_nonce validator image w v t)
          (λ _ e.
            write_meta_keeps env enc crypto host wrappers random_nonce validator id _
              (store_image_keeps env enc crypto host wrappers random_nonce validator image w v t))

    bundle_image_keeps :
        (dir : Text) (w : C)
        → Trusted w
        → Trusted (bundle_image env enc crypto host wrappers random_nonce image dir w).0
    unfolding bundle_image
    bundle_image_keeps dir w t =
        after_keeps Trusted (bundled image dir w)
          (record_image env enc crypto host wrappers random_nonce image)
          (bundle_keeps env enc crypto host wrappers random_nonce validator image dir w t)
          (λ id e.
            record_image_keeps id _
              (bundle_keeps env enc crypto host wrappers random_nonce validator image dir w t))

  module _ (meta : ImageMeta)
      (checked : check_image_signature env validator meta.reference meta.digest ≡ ok tt) where
    with_layers_keeps :
        (n : ℕ) (dir : Text) (ls : List LayerMeta) (w : C)
        → All (IsUnpacked env enc crypto host wrappers random_nonce) ls
        → Trusted w
        → Trusted (with_layers env enc crypto host wrappers random_nonce meta n dir ls w).0
    unfolding with_layers
    with_layers_keeps n dir ls w good t =
        let stored =
          store_layers_keeps env enc crypto host wrappers random_nonce validator ls w good t in
        let image : ImageMeta = record meta { layer_metas = ls } in
        let v : IsValidated env enc crypto host wrappers random_nonce validator image.id image =
          record { own_id = refl; checked = checked; layers_unpacked = good } in
        after_keeps Trusted (store_layers env enc crypto host wrappers random_nonce ls w)
          (λ _.
            must env enc crypto host wrappers random_nonce (n == length ls) layers_failed >>= λ _.
            bundle_image env enc crypto host wrappers random_nonce image dir)
          stored
          λ _ e.
            after_keeps Trusted
              (must env enc crypto host wrappers random_nonce (n == length ls) layers_failed
                (store_layers env enc crypto host wrappers random_nonce ls w).0)
              (λ _. bundle_image env enc crypto host wrappers random_nonce image dir) stored
              (λ _ e'. bundle_image_keeps image v dir _ stored)

  module _ (dc : Option DecryptConfig) (order : List (ℕ × Job) → List (ℕ × Job))
      (reference : env.oci.Reference) where
    pull_unique_keeps :
        (dir : Text) (meta : ImageMeta) (ls : List OciDescriptor) (ds : List Text) (w : C)
        → check_image_signature env validator meta.reference meta.digest ≡ ok tt
        → Trusted w
        → Trusted
            (pull_unique env enc crypto host wrappers random_nonce dc order reference dir
              (meta, ls, ds)
              w).0
    unfolding pull_unique
    pull_unique_keeps dir meta ls ds w checked t =
        after_keeps Trusted pulled
          (with_layers env enc crypto host wrappers random_nonce meta (length ls) dir) pulled_keeps
          λ metas e.
            with_layers_keeps meta checked (length ls) dir metas pulled.0
              (pull_layers_ok env enc crypto host wrappers random_nonce dc order reference ls ds w
                metas t.layers e)
              pulled_keeps
      where
        pulled : C × Result ImageError (List LayerMeta)
        pulled = pull_layers env enc crypto host wrappers random_nonce dc order reference ls ds w

        pulled_keeps : Trusted pulled.0
        pulled_keeps =
            pull_layers_keeps env enc crypto host wrappers random_nonce validator dc order reference
              ls ds w t

    module _ (url dir : Text) (manifest : Manifest) (digest config : Text) where
      abbrev created : Result ImageError (ImageMeta × List OciDescriptor × List Text)
      created =
          create_image_meta host.configuration_from_reader manifest.config_digest url manifest
            digest config

      created_keeps :
          (p : ImageMeta × List OciDescriptor × List Text) (w : C)
          → created ≡ ok p
          → check_image_signature env validator url digest ≡ ok tt
          → Trusted w
          → Trusted
              (pull_unique env enc crypto host wrappers random_nonce dc order reference dir p w).0
      created_keeps (meta, ls, ds) w e checked t =
          let (_, d, r) =
            create_image_meta_ok env enc crypto host wrappers random_nonce validator
              manifest.config_digest url digest config manifest meta ls ds e in
          pull_unique_keeps dir meta ls ds w
            (subst (λ x. check_image_signature env validator meta.reference x ≡ ok tt) (sym d)
              (subst (λ x. check_image_signature env validator x digest ≡ ok tt) (sym r) checked))
            t

      pull_new_keeps :
          (w : C)
          → Trusted w
          → Trusted
              (pull_new env enc crypto host wrappers random_nonce dc order reference url dir
                manifest digest config w).0
      unfolding pull_new
      pull_new_keeps w t =
          let checks = validate env enc crypto host wrappers random_nonce url digest w in
          let stays : Trusted checks.0 =
            subst Trusted
              (sym (validate_same env enc crypto host wrappers random_nonce validator url digest w))
              t in
          after_keeps Trusted checks
            (λ _.
              lift created
              >>= pull_unique env enc crypto host wrappers random_nonce dc order reference dir)
            stays
            λ _ e.
              after_keeps Trusted (lift created checks.0)
                (pull_unique env enc crypto host wrappers random_nonce dc order reference dir) stays
                λ p e'.
                  created_keeps p checks.0 e'
                    (validate_ok env enc crypto host wrappers random_nonce validator url digest w
                      t.configured e)
                    stays

      abbrev branch : C → Option ImageMeta → C × Result ImageError Text
      branch w (some image) = bundled image dir w
      branch w none =
          pull_new env enc crypto host wrappers random_nonce dc order reference url dir manifest
            digest config w

      known_or_new_keeps :
          (w : C)
          → Trusted w
          → Trusted
              (pull_known_or_new env enc crypto host wrappers random_nonce dc order reference url
                dir manifest digest config w).0
      unfolding pull_known_or_new
      known_or_new_keeps w t =
          elim (lookup manifest.config_digest w.meta_store.image_db)
            as (λ o. Trusted (branch w o).0) [
              | some image ↦
                  bundle_keeps env enc crypto host wrappers random_nonce validator image dir w t
              | none ↦ pull_new_keeps w t
            ]

  pull_manifest_keeps :
      (reference : env.oci.Reference) (auth : RegistryAuth) (w : C)
      → Trusted w
      → Trusted (pull_manifest env enc crypto host wrappers random_nonce reference auth w).0
  unfolding pull_manifest
  pull_manifest_keeps reference auth w t =
      let p = pull_manifest env enc crypto host wrappers random_nonce reference auth w in
      let same : p.0 ≡ record w { site = p.0.site } = ground arith in
      subst Trusted (sym same)
        (elsewhere env enc crypto host wrappers random_nonce validator w p.0.site t)

  pull_pulled_keeps :
      (dc : Option DecryptConfig) (order : List (ℕ × Job) → List (ℕ × Job))
      (reference : env.oci.Reference) (url dir : Text) (p : Manifest × Text × Text) (w : C)
      → Trusted w
      → Trusted
          (pull_pulled env enc crypto host wrappers random_nonce dc order reference url dir p w).0
  unfolding pull_pulled
  pull_pulled_keeps dc order reference url dir (manifest, digest, config) w t =
      if_holds (λ (r : C × Result ImageError Text). Trusted r.0) w.snapshot _ _
        (known_or_new_keeps dc order reference url dir manifest digest config w t) t

  pull_with_keeps :
      (dc : Option DecryptConfig) (order : List (ℕ × Job) → List (ℕ × Job)) (url dir : Text)
      (reference : env.oci.Reference) (auth : RegistryAuth) (w : C)
      → Trusted w
      → Trusted
          (pull_with env enc crypto host wrappers random_nonce dc order url dir reference auth w).0
  unfolding pull_with
  pull_with_keeps dc order url dir reference auth w t =
      let kept = pull_manifest_keeps reference auth w t in
      after_keeps Trusted (pull_manifest env enc crypto host wrappers random_nonce reference auth w)
        (pull_pulled env enc crypto host wrappers random_nonce dc order reference url dir) kept
        (λ p e. pull_pulled_keeps dc order reference url dir p _ kept)

  pub pull_image_keeps :
      (dc : Option DecryptConfig) (order : List (ℕ × Job) → List (ℕ × Job)) (url dir : Text)
      (auth_info : Option Text) (w : C)
      → Trusted w
      → Trusted
          (pull_image env enc crypto host wrappers random_nonce dc order url dir auth_info w).0
  unfolding pull_image
  pull_image_keeps dc order url dir auth_info w t =
      elim (env.oci.try_from url) as (λ o. Trusted (of_reference o).0) [
        | none ↦ t
        | some reference ↦
            elim (image_auth env enc crypto host wrappers random_nonce auth_info w.registry_auth
                reference)
              as (λ r. Trusted (of_auth reference r).0) [
                | err e ↦ t
                | ok auth ↦ pull_with_keeps dc order url dir reference auth w t
              ]
      ]
    where
      of_auth : env.oci.Reference → Result ImageError RegistryAuth → C × Result ImageError Text
      of_auth reference r = elim r [
        | err e ↦ (w, err e)
        | ok auth ↦
            pull_with env enc crypto host wrappers random_nonce dc order url dir reference auth w
      ]

      of_reference : Option env.oci.Reference → C × Result ImageError Text
      of_reference o = elim o [
        | none ↦ (w, err bad_reference)
        | some reference ↦ of_auth reference (
            image_auth env enc crypto host wrappers random_nonce auth_info w.registry_auth
              reference)
      ]
