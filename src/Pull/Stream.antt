-- ===== src/Pull/Stream.antt =====
-- image-rs/src/decoder/mod.rs, stream.rs and digest.rs: a layer is decompressed, hashed as it is read,
-- and unpacked. The reader hashes all that it passes on, and unpacking reads it to its end.
use coco_guest_components.Common.{
  ℕ, ◌≡◌, inl, inr, List, ◌++◌, if◌then◌else◌, Result, ok, err, Result-cases, arith,
}
use coco_guest_components.Text.{Text, bytes, starts_with, ◌=ₜ◌}
use coco_guest_components.External.Oci.{OciClient}
use coco_guest_components.External.Host.{
  MediaType, image_layer, image_layer_non_distributable, image_layer_gzip,
  image_layer_non_distributable_gzip, image_layer_zstd, image_layer_non_distributable_zstd, other,
  Compression, uncompressed, gzip, zstd, Source, unpacked, failed, timed_out, Host,
}

pub data StreamError : Type 0 where
  bad_media_type bad_uncompressed_digest unpack_failed rollback_failed unpack_timed_out :
      StreamError

-- `DIGEST_SHA256_PREFIX` and `DIGEST_SHA512_PREFIX`
abbrev pub digest_sha256_prefix : Text
digest_sha256_prefix = bytes "sha256:"

abbrev pub digest_sha512_prefix : Text
digest_sha512_prefix = bytes "sha512:"

pub data LayerDigestHasher : Type 0 where
  sha256 sha512 : LayerDigestHasher

unfoldable pub decoder_of : MediaType → Result StreamError Compression
decoder_of image_layer = ok uncompressed
decoder_of image_layer_non_distributable = ok uncompressed
decoder_of image_layer_gzip = ok gzip
decoder_of image_layer_non_distributable_gzip = ok gzip
decoder_of image_layer_zstd = ok zstd
decoder_of image_layer_non_distributable_zstd = ok zstd
decoder_of other = err bad_media_type

unfoldable pub hasher_of : Text → Result StreamError LayerDigestHasher
hasher_of diff_id =
    if starts_with digest_sha256_prefix diff_id
    then ok sha256
    else if starts_with digest_sha512_prefix diff_id
    then ok sha512
    else err bad_uncompressed_digest

module _ {oci : OciClient} (host : Host oci) where
  open host use {
    State, docker_layer_gzip, oci_layer_gzip, media_type_from, decompress, unpack, remove_dir_all,
    sha256_hex, sha512_hex,
  }

  -- `Compression::try_from`
  unfoldable pub compression_try_from : Text → Result StreamError Compression
  compression_try_from s =
      decoder_of (media_type_from (if s =ₜ docker_layer_gzip then oci_layer_gzip else s))

  unfoldable pub async_decompress : Compression → Source → Source
  async_decompress uncompressed input = input
  async_decompress gzip input = decompress gzip input
  async_decompress zstd input = decompress zstd input

  unfoldable pub digest_finalize : LayerDigestHasher → List ℕ → Text
  digest_finalize sha256 content = digest_sha256_prefix ++ sha256_hex content
  digest_finalize sha512 content = digest_sha512_prefix ++ sha512_hex content

  -- A layer that cannot be unpacked is removed again; where the time runs out this is not reached.
  unfoldable pub async_processing :
      State → Source → LayerDigestHasher → Text → State × Result StreamError Text
  async_processing s reader hasher destination =
      let (s', outcome) = unpack s reader destination in
      elim outcome [
        | unpacked ↦ (s', ok (digest_finalize hasher reader.content))
        | timed_out ↦ (s', err unpack_timed_out)
        | failed ↦
            let (s'', removed) = remove_dir_all s' destination in
            (s'', err (if removed then unpack_failed else rollback_failed))
      ]

  unfoldable pub stream_processing : State → Source → Text → Text → State × Result StreamError Text
  stream_processing s reader diff_id destination = elim (hasher_of diff_id) [
    | err e ↦ (s, err e)
    | ok hasher ↦ async_processing s reader hasher destination
  ]

  -- `async_decompress_unpack_layer_with_timeout`
  unfoldable pub decompress_unpack_layer :
      State → Source → Text → Text → Text → State × Result StreamError Text
  decompress_unpack_layer s input diff_id media_type destination =
      elim (compression_try_from media_type) [
        | err e ↦ (s, err e)
        | ok decoder ↦ stream_processing s (async_decompress decoder input) diff_id destination
      ]

  -- What was unpacked, and the digest of it.
  pub record Streamed (input : Source) (media_type destination digest : Text) (s' : State)
      : Type 0 where
    pub decoder : Compression
    pub media_known : compression_try_from media_type ≡ ok decoder
    pub before : State
    pub written : unpack before (async_decompress decoder input) destination ≡ (s', unpacked)
    pub hasher : LayerDigestHasher
    pub digested : digest ≡ digest_finalize hasher (async_decompress decoder input).content

  -- Unpacked under the digest, from some stream.
  pub record Unpacks (destination digest : Text) : Type 0 where
    pub input : Source
    pub media_type : Text
    pub after_unpack : State
    pub streamed : Streamed input media_type destination digest after_unpack

  pub async_processing_ok :
      (s s' : State) (reader : Source) (hasher : LayerDigestHasher) (destination digest : Text)
      → async_processing s reader hasher destination ≡ (s', ok digest)
      → (unpack s reader destination ≡ (s', unpacked))
        × (digest ≡ digest_finalize hasher reader.content)
  unfolding async_processing
  async_processing_ok s s' reader hasher destination digest h = (ground arith, ground arith)

  pub decompress_unpack_ok :
      (s s' : State) (input : Source) (diff_id media_type destination digest : Text)
      → decompress_unpack_layer s input diff_id media_type destination ≡ (s', ok digest)
      → Streamed input media_type destination digest s'
  unfolding decompress_unpack_layer stream_processing
  decompress_unpack_ok s s' input diff_id media_type destination digest h =
      elim (Result-cases (compression_try_from media_type)) [
        | inr (e, unknown) ↦ ground arith
        | inl (decoder, known) ↦ elim (Result-cases (hasher_of diff_id)) [
          | inr (e, unsupported) ↦ ground arith
          | inl (hasher, supported) ↦
              let (written, digested) =
                async_processing_ok s s' (async_decompress decoder input) hasher destination digest
                  (ground arith) in
              record {
                decoder = decoder;
                media_known = known;
                before = s;
                written = written;
                hasher = hasher;
                digested = digested;
              }
        ]
      ]
