-- ===== src/External/Host.antt =====
-- What pulling an image takes from outside: the registry (`oci_client`), decompression, the tar
-- reader with the file system below it, snapshots, and the parsed image configuration (`oci_spec`).
use coco_guest_components.Common.{ℕ, Bool, Option, List}
use coco_guest_components.Text.{Text}
use coco_guest_components.External.Oci.{OciClient}
use coco_guest_components.Ocicrypt.Cipher.{IoEvent}
use coco_guest_components.Ocicrypt.Encryption.{Annotations}
use coco_guest_components.Auth.{RegistryAuth}

-- The media types of `oci_spec` that are told apart.
pub data MediaType : Type 0 where
  image_layer image_layer_non_distributable image_layer_gzip image_layer_non_distributable_gzip
        image_layer_zstd image_layer_non_distributable_zstd other :
      MediaType

pub data Compression : Type 0 where
  uncompressed gzip zstd : Compression

pub record OciDescriptor : Type 0 where
  pub digest : Text
  pub media_type : Text
  pub size : ℕ
  pub annotations : Option Annotations

pub record Manifest : Type 0 where
  pub config_digest : Text
  pub layers : List OciDescriptor

pub record ImageConfiguration : Type 0 where
  pub diff_ids : List Text
  pub is_linux : Bool

-- A stream of bytes, which may end in an error.
pub record Source : Type 0 where
  pub content : List ℕ
  pub broken : Bool

-- What becomes of unpacking: all of the stream was read, or a step failed, or the time ran out.
pub data Unpacked : Type 0 where
  unpacked failed timed_out : Unpacked

pub record Host (oci : OciClient) : Type 1 where
  pub State : Type 0
  -- `pull_blob_stream`, with its timeout
  pub pull_blob_stream : State → oci.Reference → OciDescriptor → State × Option (List IoEvent)
  pub pull_manifest_and_config :
      State → oci.Reference → RegistryAuth → State × Option (Manifest × Text × Text)
  -- constants of the crate: the type of a gzip layer for docker and for OCI, and of a plain layer
  pub docker_layer_gzip : Text
  pub oci_layer_gzip : Text
  pub oci_layer : Text
  -- `MediaType::from`
  pub media_type_from : Text → MediaType
  pub decompress : Compression → Source → Source
  -- how much of the stream a decoder of the media type has read at its end
  pub bytes_read : Text → Source → ℕ
  -- `unpack`, with the timeout around it
  pub unpack : State → Source → Text → State × Unpacked
  pub remove_dir_all : State → Text → State × Bool
  -- the digest as lower-case hexadecimal digits
  pub sha256_hex : List ℕ → Text
  pub sha512_hex : List ℕ → Text
  pub configuration_from_reader : Text → Option ImageConfiguration
  -- `snapshot.mount` of the store paths, and writing the runtime configuration
  pub mount : State → List Text → Text → State × Bool
  pub create_runtime_config : State → ImageConfiguration → Text → State × Bool
  pub write_meta_store : State → State × Bool
