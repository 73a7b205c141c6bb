-- ===== src/Pull/Layer.antt =====
-- image-rs/src/pull.rs: one layer of an image. Waiting between attempts is left out. The decryption
-- configuration is parsed by ocicrypt-rs/src/helpers.rs and is an argument.
pub mod Fetched
pub mod Laws
use coco_guest_components.Common.{
  ℕ, zero, suc, ◌≡◌, ◌≢◌, refl, ◌⊎◌, inl, inr, Bool, true, false, not, ◌&&◌, ◌||◌, Option, none,
  some, List, [], ◌∷◌, ◌++◌, ◌==◌, ltb, if◌then◌else◌, Result, ok, err, ok_or, ensure, map_err,
  Bool-cases, Option-cases, Result-cases, arith,
}
use coco_guest_components.Text.{Text, ◌=ₜ◌}
use coco_guest_components.Text.Map.{lookup}
use coco_guest_components.Text.Laws.{text_eq_iff}
use coco_guest_components.External.Oci.{OciClient}
use coco_guest_components.External.Crypto.{Crypto}
use coco_guest_components.External.Encoding.{Encoding}
use coco_guest_components.External.Host.{
  Compression, gzip, OciDescriptor, Source, Unpacked, unpacked, Host,
}
use coco_guest_components.Ocicrypt.Cipher.{IoEvent, chunk, failed}
use coco_guest_components.Ocicrypt.KeyWrap.{DecryptConfig, KeyWrappers}
use coco_guest_components.Decrypt.{
  DecryptError, Decryptor, from_media_type, get_decrypt_key, async_get_plaintext_layer, read_layer,
}
use coco_guest_components.LayerStore.{LayerStore, new_layer_store_path}
use coco_guest_components.Steps.{Steps, ◌>>=◌, lift}
use coco_guest_components.Pull.Stream.{StreamError, decompress_unpack_layer}

pub data PullError : Type 0 where
  stream_error : StreamError → PullError
  decrypt_error : DecryptError → PullError
  size_mismatch unequal_digest blob_failed gave_up : PullError

pub record LayerMeta : Type 0 where
  pub decoder : Compression
  pub encrypted : Bool
  pub compressed_digest : Text
  pub uncompressed_digest : Text
  pub store_path : Text

abbrev pub LayerDb : Type 0
LayerDb = List (Text × LayerMeta)

-- `LAYER_PULL_ATTEMPTS`
abbrev pub layer_pull_attempts : ℕ
layer_pull_attempts = 3

-- What a stream of the registry yields.
unfoldable pub source_of : List IoEvent → Source
source_of [] = record { content = []; broken = false }
source_of (failed ∷ es) = record { content = []; broken = true }
source_of (chunk bs ∷ es) =
    let rest = source_of es in record { content = bs ++ rest.content; broken = rest.broken }

-- A decrypted layer as a stream: an error of decryption breaks it. The reader hands out plaintext before
-- the error at the end, which only unpacking sees, as files of a layer that is then refused; the stream
-- here breaks at once.
abbrev pub source_of_plaintext : Result DecryptError (List ℕ) → Source
source_of_plaintext (ok content) = record { content = content; broken = false }
source_of_plaintext (err _) = record { content = []; broken = true }

-- The layer store, and all else.
pub record Site {oci : OciClient} (host : Host oci) : Type 0 where
  pub store : LayerStore
  pub net : host.State

module _ (enc : Encoding) (crypto : Crypto) {oci : OciClient} (host : Host oci)
    (wrappers : KeyWrappers) (decrypt_config : Option DecryptConfig)
    (random_nonce : Option (List ℕ)) where
  open host use {State, pull_blob_stream, remove_dir_all, oci_layer, oci_layer_gzip, bytes_read}

  abbrev pub L : Type 0 → Type 0
  L A = Steps State PullError A

  abbrev pub unpack_layer : Source → Text → Text → Text → L Text
  unpack_layer input diff_id media_type destination s =
      let (s', r) = decompress_unpack_layer host s input diff_id media_type destination in
      (s', map_err stream_error r)

  -- The digest of a layer that is encrypted, unpacked as its plaintext is read.
  unfoldable pub unpack_encrypted : Decryptor → OciDescriptor → Text → List IoEvent → Text → L Text
  unpack_encrypted decryptor layer diff_id events destination = do
    decrypt_key ← lift (
        map_err decrypt_error
          (get_decrypt_key enc crypto wrappers decryptor layer.annotations decrypt_config))
    plaintext_layer ← lift (
        map_err decrypt_error
          (async_get_plaintext_layer enc crypto events layer.annotations decrypt_key random_nonce))
    unpack_layer (source_of_plaintext (read_layer enc crypto events plaintext_layer)) diff_id
        decryptor.media_type destination

  -- The digest of a layer that is not encrypted. A size that is not positive is 0 here.
  unfoldable pub unpack_plain : OciDescriptor → Text → List IoEvent → Text → L Text
  unpack_plain layer diff_id events destination = do
    uncompressed_digest ← unpack_layer (source_of events) diff_id layer.media_type destination
    _ ← lift (
        ensure
          (not (
            ltb 0 layer.size && not (bytes_read layer.media_type (source_of events) == layer.size)))
          size_mismatch)
    lift (ok uncompressed_digest)

  unfoldable pub unpack_either : Decryptor → OciDescriptor → Text → List IoEvent → Text → L Text
  unpack_either decryptor layer diff_id events destination =
      if decryptor.encrypted
      then unpack_encrypted decryptor layer diff_id events destination
      else unpack_plain layer diff_id events destination

  -- The block of `async_handle_layer` whose error leads to a clean-up.
  unfoldable pub fetch_layer : OciDescriptor → Text → List IoEvent → Text → L LayerMeta
  fetch_layer layer diff_id events destination = do
    let decryptor = from_media_type oci_layer oci_layer_gzip layer.media_type
    uncompressed_digest ← unpack_either decryptor layer diff_id events destination
    _ ← lift (ensure (uncompressed_digest =ₜ diff_id) unequal_digest)
    lift (
        ok (record {
          decoder = gzip;
          encrypted = decryptor.encrypted;
          compressed_digest = layer.digest;
          uncompressed_digest = uncompressed_digest;
          store_path = destination;
        }))

  -- The result of the block; after an error what was written is removed, whether that works or not.
  abbrev pub or_clean_up :
      Text → State × Result PullError LayerMeta → State × Result PullError LayerMeta
  or_clean_up destination (s, ok meta) = (s, ok meta)
  or_clean_up destination (s, err e) = ((remove_dir_all s destination).0, err e)

  abbrev pub destination_of : LayerStore → Text
  destination_of store = store.data_dir ++ b'/' ∷ (new_layer_store_path store).1

  unfoldable pub async_handle_layer :
      LayerDb → OciDescriptor → Text → List IoEvent → Steps (Site host) PullError LayerMeta
  async_handle_layer db layer diff_id events site = elim (lookup layer.digest db) [
    | some meta ↦ (site, ok meta)
    | none ↦
        let (s, r) =
          or_clean_up (destination_of site.store)
            (fetch_layer layer diff_id events (destination_of site.store) site.net) in
        (record { store = (new_layer_store_path site.store).0; net = s }, r)
  ]

  unfoldable pub pull_layer_once :
      LayerDb → oci.Reference → OciDescriptor → Text → Steps (Site host) PullError LayerMeta
  pull_layer_once db reference layer diff_id site =
      let (s, stream) = pull_blob_stream site.net reference layer in
      let opened = record site { net = s } in
      elim stream [
        | none ↦ (opened, err blob_failed)
        | some events ↦ async_handle_layer db layer diff_id events opened
      ]

  -- The loop of `pull_layer_with_retry`, with the attempts that are left.
  unfoldable pub pull_layer_from :
      ℕ → LayerDb → oci.Reference → OciDescriptor → Text → Steps (Site host) PullError LayerMeta
  pull_layer_from zero db reference layer diff_id site = (site, err gave_up)
  pull_layer_from (suc left) db reference layer diff_id site =
      let once = pull_layer_once db reference layer diff_id site in
      let again = pull_layer_from left db reference layer diff_id once.0 in
      elim (lookup layer.digest db) [
        | some meta ↦ (site, ok meta)
        | none ↦ elim once.1 [ ok meta ↦ (once.0, ok meta) | err _ ↦ again ]
      ]

  unfoldable pub pull_layer_with_retry :
      LayerDb → oci.Reference → OciDescriptor → Text → Steps (Site host) PullError LayerMeta
  pull_layer_with_retry = pull_layer_from layer_pull_attempts
