-- ===== src/Pull/Image/Trust.antt =====
-- What the record of images and layers of a client with a signature validator says.
use coco_guest_components.Common.{
  ℕ, ◌≡◌, sym, subst, inl, inr, Option, some, List, [], All, Result, ok, map_err-eq-ok, Bool-cases,
  Option-cases, arith,
}
use coco_guest_components.Text.{Text, ◌=ₜ◌}
use coco_guest_components.Text.Map.{lookup, lookup-insert}
use coco_guest_components.Text.Laws.{text_eq_iff}
use coco_guest_components.External.Crypto.{Crypto}
use coco_guest_components.External.Encoding.{Encoding}
use coco_guest_components.External.Host.{OciDescriptor, Manifest, Host}
use coco_guest_components.Ocicrypt.KeyWrap.{DecryptConfig, KeyWrappers}
use coco_guest_components.Signature.Env.{Env}
use coco_guest_components.Signature.Validator.{SignatureValidator, check_image_signature}
use coco_guest_components.Pull.Layer.{LayerMeta, Site}
use coco_guest_components.Pull.Image.{
  Client, create_bundle, validate, pull_layers, store_layers, store_image, write_meta,
}
use coco_guest_components.Pull.Meta.{
  ImageError, ImageMeta, Job, create_image_meta, validation_failed,
}
use coco_guest_components.Pull.Image.Gate.{IsUnpacked, Layered, Layered-extend}

module _ (env : Env) (enc : Encoding) (crypto : Crypto) (host : Host env.oci)
    (wrappers : KeyWrappers) (random_nonce : Option (List ℕ)) (validator : SignatureValidator) where
  abbrev C : Type 0
  C = Client env enc crypto host wrappers random_nonce

  -- The image passed the check under the reference and the digest that are recorded with it, and each
  -- of its layers was unpacked from content of the layer's digest.
  pub record IsValidated (id : Text) (image : ImageMeta) : Type 0 where
    pub own_id : image.id ≡ id
    pub checked : check_image_signature env validator image.reference image.digest ≡ ok tt
    pub layers_unpacked :
        All (IsUnpacked env enc crypto host wrappers random_nonce) image.layer_metas

  -- The validator is configured, and all images and layers of the record are good.
  pub record IsTrusted (w : C) : Type 0 where
    pub configured : w.signature_validator ≡ some validator
    pub images :
        (id : Text) (image : ImageMeta)
        → lookup id w.meta_store.image_db ≡ some image
        → IsValidated id image
    pub layers : Layered env enc crypto host wrappers random_nonce w.meta_store.layer_db

  -- Only the world outside changed.
  pub elsewhere : (w : C) (site : Site host) → IsTrusted w → IsTrusted (record w { site = site })
  elsewhere w site t = record { configured = t.configured; images = t.images; layers = t.layers }

  abbrev bundled : ImageMeta → Text → C → C × Result ImageError Text
  bundled = create_bundle env enc crypto host wrappers random_nonce

  pub bundle_keeps :
      (image : ImageMeta) (dir : Text) (w : C)
      → IsTrusted w
      → IsTrusted (create_bundle env enc crypto host wrappers random_nonce image dir w).0
  unfolding create_bundle
  bundle_keeps image dir w t =
      let same : (bundled image dir w).0 ≡ record w { site = (bundled image dir w).0.site } =
        ground arith in
      subst IsTrusted (sym same) (elsewhere w (bundled image dir w).0.site t)

  pub store_image_keeps :
      (image : ImageMeta) (w : C)
      → IsValidated image.id image
      → IsTrusted w
      → IsTrusted (store_image env enc crypto host wrappers random_nonce image w).0
  unfolding store_image
  store_image_keeps image w v t = record {
    configured = t.configured;
    images = λ id found e. elim (Bool-cases (image.id =ₜ id)) [
      | inl same ↦
          let is : image ≡ found =
            ground (arith, lookup-insert image.id id image w.meta_store.image_db) in
          let at : image.id ≡ id = (text_eq_iff _ _).0 same in
          subst (IsValidated id) is (subst (λ i. IsValidated i image) at v)
      | inr other ↦
          t.images id found (ground (arith, lookup-insert image.id id image w.meta_store.image_db))
    ];
    layers = t.layers;
  }

  pub store_layers_keeps :
      (ls : List LayerMeta) (w : C)
      → All (IsUnpacked env enc crypto host wrappers random_nonce) ls
      → IsTrusted w
      → IsTrusted (store_layers env enc crypto host wrappers random_nonce ls w).0
  unfolding store_layers
  store_layers_keeps ls w good t = record {
    configured = t.configured;
    images = t.images;
    layers =
        Layered-extend env enc crypto host wrappers random_nonce ls w.meta_store.layer_db good
          t.layers;
  }

  pub not_in_empty :
      {V : Type 0} (m : List (Text × V)) (k : Text) (v : V) → m ≡ [] → ¬ (lookup k m ≡ some v)
  unfolding lookup
  not_in_empty m k v e h = ground arith

  pub create_image_meta_ok :
      (id url digest config : Text) (manifest : Manifest) (meta : ImageMeta)
      (ls : List OciDescriptor) (ds : List Text)
      → create_image_meta host.configuration_from_reader id url manifest digest config
        ≡ ok (meta, ls, ds)
      → (meta.id ≡ id) × (meta.digest ≡ digest) × (meta.reference ≡ url)
  unfolding create_image_meta
  create_image_meta_ok id url digest config manifest meta ls ds h =
      elim (Option-cases (host.configuration_from_reader config)) [
        | inl bad ↦ ground arith
        | inr (c, parsed) ↦ (ground arith, ground arith, ground arith)
      ]

  pub validate_same :
      (url digest : Text) (w : C)
      → (validate env enc crypto host wrappers random_nonce url digest w).0 ≡ w
  unfolding validate
  validate_same url digest w = ground arith

  pub validate_ok :
      (url digest : Text) (w : C)
      → w.signature_validator ≡ some validator
      → (validate env enc crypto host wrappers random_nonce url digest w).1 ≡ ok tt
      → check_image_signature env validator url digest ≡ ok tt
  unfolding validate
  validate_ok url digest w configured h = map_err-eq-ok validation_failed _ (ground arith)

  pub pull_layers_keeps :
      (dc : Option DecryptConfig) (order : List (ℕ × Job) → List (ℕ × Job))
      (reference : env.oci.Reference) (ls : List OciDescriptor) (ds : List Text) (w : C)
      → IsTrusted w
      → IsTrusted
          (pull_layers env enc crypto host wrappers random_nonce dc order reference ls ds w).0
  unfolding pull_layers
  pull_layers_keeps dc order reference ls ds w t = elsewhere w _ t

  pub write_meta_keeps :
      (id : Text) (w : C)
      → IsTrusted w
      → IsTrusted (write_meta env enc crypto host wrappers random_nonce id w).0
  unfolding write_meta
  write_meta_keeps id w t =
      let p = write_meta env enc crypto host wrappers random_nonce id w in
      let same : p.0 ≡ record w { site = p.0.site } = ground arith in
      subst IsTrusted (sym same) (elsewhere w p.0.site t)
