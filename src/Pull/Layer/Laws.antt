-- ===== src/Pull/Layer/Laws.antt =====
-- What is known of a layer that was pulled, by whatever attempt.
use coco_guest_components.Common.{
  ℕ, zero, suc, ◌≡◌, ◌⊎◌, inl, inr, Option, none, some, List, Result, ok, Option-cases,
  Result-cases, arith,
}
use coco_guest_components.Text.{Text}
use coco_guest_components.Text.Map.{lookup}
use coco_guest_components.External.Oci.{OciClient}
use coco_guest_components.External.Crypto.{Crypto}
use coco_guest_components.External.Encoding.{Encoding}
use coco_guest_components.External.Host.{OciDescriptor, Host}
use coco_guest_components.Ocicrypt.Cipher.{IoEvent}
use coco_guest_components.Ocicrypt.KeyWrap.{DecryptConfig, KeyWrappers}
use coco_guest_components.Pull.Layer.{
  PullError, LayerMeta, LayerDb, Site, fetch_layer, destination_of, async_handle_layer,
  pull_layer_once, pull_layer_from, pull_layer_with_retry,
}
use coco_guest_components.Pull.Layer.Fetched.{Verified, fetch_layer_ok}

module _ (enc : Encoding) (crypto : Crypto) {oci : OciClient} (host : Host oci)
    (wrappers : KeyWrappers) (decrypt_config : Option DecryptConfig)
    (random_nonce : Option (List ℕ)) where
  open host use {State, pull_blob_stream, remove_dir_all}

  abbrev S : Type 0
  S = Site host

  abbrev place : S → Text
  place site = destination_of enc crypto host wrappers decrypt_config random_nonce site.store

  abbrev begun : OciDescriptor → Text → List IoEvent → S → State × Result PullError LayerMeta
  begun layer diff_id events site =
      fetch_layer enc crypto host wrappers decrypt_config random_nonce layer diff_id events
        (place site) site.net

  abbrev once : LayerDb → oci.Reference → OciDescriptor → Text → S → S × Result PullError LayerMeta
  once db reference layer diff_id site =
      pull_layer_once enc crypto host wrappers decrypt_config random_nonce db reference layer
        diff_id site

  async_handle_ok :
      (db : LayerDb) (layer : OciDescriptor) (diff_id : Text) (events : List IoEvent)
      (site site' : S) (meta : LayerMeta)
      → lookup layer.digest db ≡ none
      → async_handle_layer enc crypto host wrappers decrypt_config random_nonce db layer diff_id
          events site
        ≡ (site', ok meta)
      → Verified enc crypto host wrappers decrypt_config random_nonce layer diff_id meta
  unfolding async_handle_layer
  async_handle_ok db layer diff_id events site site' meta new h =
      elim (Result-cases (begun layer diff_id events site).1) [
        | inl (m, good) ↦
            fetch_layer_ok enc crypto host wrappers decrypt_config random_nonce layer diff_id events
              (place site) meta site.net (begun layer diff_id events site).0 (ground arith)
        | inr (e, bad) ↦ ground arith
      ]

  pull_once_ok :
      (db : LayerDb) (reference : oci.Reference) (layer : OciDescriptor) (diff_id : Text)
      (site site' : S) (meta : LayerMeta)
      → lookup layer.digest db ≡ none
      → once db reference layer diff_id site ≡ (site', ok meta)
      → Verified enc crypto host wrappers decrypt_config random_nonce layer diff_id meta
  unfolding pull_layer_once
  pull_once_ok db reference layer diff_id site site' meta new h =
      elim (Option-cases (pull_blob_stream site.net reference layer).1) [
        | inl lost ↦ ground arith
        | inr (events, came) ↦
            async_handle_ok db layer diff_id events
              (record site { net = (pull_blob_stream site.net reference layer).0 }) site' meta new
              (ground arith)
      ]

  pull_layer_ok :
      (left : ℕ) (db : LayerDb) (reference : oci.Reference) (layer : OciDescriptor) (diff_id : Text)
      (site site' : S) (meta : LayerMeta)
      → lookup layer.digest db ≡ none
      → pull_layer_from enc crypto host wrappers decrypt_config random_nonce left db reference layer
          diff_id site
        ≡ (site', ok meta)
      → Verified enc crypto host wrappers decrypt_config random_nonce layer diff_id meta
  unfolding pull_layer_from
  pull_layer_ok zero db reference layer diff_id site site' meta new h = cc
  pull_layer_ok (suc left) db reference layer diff_id site site' meta new h =
      elim (Result-cases (once db reference layer diff_id site).1) [
        | inl (m, good) ↦
            pull_once_ok db reference layer diff_id site (once db reference layer diff_id site).0
              meta new (ground arith)
        | inr (e, bad) ↦
            pull_layer_ok left db reference layer diff_id (once db reference layer diff_id site).0
              site' meta new (ground arith)
      ]

  cached_ok :
      (left : ℕ) (db : LayerDb) (reference : oci.Reference) (layer : OciDescriptor) (diff_id : Text)
      (site site' : S) (m meta : LayerMeta)
      → lookup layer.digest db ≡ some m
      → pull_layer_from enc crypto host wrappers decrypt_config random_nonce
          (suc left)
          db
          reference
          layer
          diff_id
          site
        ≡ (site', ok meta)
      → (lookup layer.digest db ≡ some meta) × (site' ≡ site)
  unfolding pull_layer_from
  cached_ok left db reference layer diff_id site site' m meta held h = (ground arith, ground arith)

  -- A layer that is pulled, by whatever attempt, is the one in the database under the layer's digest,
  -- with nothing done; or, where there is none, it was unpacked now into its store path, and the
  -- digest of the bytes that were unpacked is the diff id of the image's configuration.
  pub pull_layer_sound :
      (db : LayerDb) (reference : oci.Reference) (layer : OciDescriptor) (diff_id : Text)
      (site site' : S) (meta : LayerMeta)
      → pull_layer_with_retry enc crypto host wrappers decrypt_config random_nonce db reference
          layer diff_id site
        ≡ (site', ok meta)
      → ((lookup layer.digest db ≡ some meta) × (site' ≡ site))
        ⊎ ((lookup layer.digest db ≡ none)
            × Verified enc crypto host wrappers decrypt_config random_nonce layer diff_id meta)
  unfolding pull_layer_with_retry
  pull_layer_sound db reference layer diff_id site site' meta h =
      elim (Option-cases (lookup layer.digest db)) [
        | inl new ↦ inr (new, pull_layer_ok 3 db reference layer diff_id site site' meta new h)
        | inr (m, held) ↦ inl (cached_ok 2 db reference layer diff_id site site' m meta held h)
      ]
