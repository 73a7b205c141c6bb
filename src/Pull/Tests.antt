-- ===== src/Pull/Tests.antt =====
-- A registry with one image of two layers, whose second attempt at a layer is the one that succeeds.
use mathlib.Core.List.{Permᴰ}
use coco_guest_components.Common.{
  ℕ, ◌+◌, ◌≡◌, refl, ◌⊎◌, true, false, none, some, List, [], ◌∷◌, ◌++◌, ltb, length, Memᴰ,
  if◌then◌else◌, ok,
}
use coco_guest_components.Text.{Text, bytes, ◌=ₜ◌, starts_with}
use coco_guest_components.Text.Decimal.{decimal}
use coco_guest_components.Text.Map.{lookup}
use coco_guest_components.External.Concrete.{oci}
use coco_guest_components.External.Host.{image_layer, gzip, OciDescriptor, Manifest, unpacked, Host}
use coco_guest_components.Ocicrypt.Cipher.{chunk}
use coco_guest_components.Ocicrypt.KeyWrap.{KeyWrappers}
use coco_guest_components.Ocicrypt.Setup.{test_encoding, test_crypto}
use coco_guest_components.Signature.Setup.{env, app, good_digest, validator}
use coco_guest_components.Decrypt.{from_media_type}
use coco_guest_components.LayerStore.{new_layer_store_path}
use coco_guest_components.Pull.Stream.{
  decoder_of, hasher_of, compression_try_from, async_decompress, digest_finalize, async_processing,
  stream_processing, decompress_unpack_layer,
}
use coco_guest_components.Pull.Layers.{
  async_pull_layers, succeeded, enumerate, async_pull_layers_in_order,
}
use coco_guest_components.Pull.Layer.{
  PullError, LayerMeta, Site, source_of, unpack_plain, unpack_either, fetch_layer,
  async_handle_layer, pull_layer_once, pull_layer_from, pull_layer_with_retry,
}
use coco_guest_components.Pull.Layer.Laws.{pull_layer_sound}
use coco_guest_components.Pull.Layer.Fetched.{Verified}
use coco_guest_components.Pull.Image.{Client, pull_image}
use coco_guest_components.Pull.Meta.{Job, jobs, unique_from}
use coco_guest_components.Pull.Image.Unique.{AreNew, HasDigest, unique_layers}
use coco_guest_components.Pull.Image.Trust.{IsTrusted}
use coco_guest_components.Pull.Image.Reached.{start, pulls, Reached-IsTrusted}

abbrev layer : Text → OciDescriptor
layer digest = record { digest = digest; media_type = bytes "p"; size = 0; annotations = none }

abbrev manifest : Manifest
manifest = record {
  config_digest = bytes "id";
  layers = layer (bytes "ab") ∷ layer (bytes "cd") ∷ [];
}

-- The digest of a layer is its content.
abbrev host : Host oci
host = record {
  State = ℕ;
  pull_blob_stream = λ s r l. (s + 1, if ltb 0 s then some (chunk l.digest ∷ []) else none);
  pull_manifest_and_config = λ s r a. (s + 1, some (manifest, good_digest, bytes "config"));
  docker_layer_gzip = bytes "g";
  oci_layer_gzip = bytes "z";
  oci_layer = bytes "p";
  media_type_from = λ t. image_layer;
  decompress = λ c s. s;
  bytes_read = λ t s. length s.content;
  unpack = λ s input to. (s + 1, unpacked);
  remove_dir_all = λ s p. (s + 1, true);
  sha256_hex = λ c. c;
  sha512_hex = λ c. c;
  configuration_from_reader =
      λ t. some (record { diff_ids = bytes "sha256:ab" ∷ bytes "sha256:cd" ∷ []; is_linux = true });
  mount = λ s ps p. (s + 1, true);
  create_runtime_config = λ s c p. (s + 1, true);
  write_meta_store = λ s. (s + 1, true);
}

abbrev site : ℕ → ℕ → Site host
site index net = record { store = record { data_dir = bytes "d"; layers_index = index }; net = net }

abbrev none_wrapped : KeyWrappers
none_wrapped = []

abbrev meta : Text → Text → LayerMeta
meta digest path = record {
  decoder = gzip;
  encrypted = false;
  compressed_digest = digest;
  uncompressed_digest = bytes "sha256:" ++ digest;
  store_path = path;
}

pulled :
    pull_layer_with_retry test_encoding test_crypto host none_wrapped none none [] app
      (layer (bytes "ab"))
      (bytes "sha256:ab")
      (site 4 0)
    ≡ (site 5 3, ok (meta (bytes "ab") (bytes "d/4")))
unfolding pull_layer_with_retry pull_layer_from pull_layer_once async_handle_layer fetch_layer
    unpack_either unpack_plain source_of lookup from_media_type decompress_unpack_layer
    stream_processing async_processing async_decompress digest_finalize compression_try_from
    hasher_of decoder_of new_layer_store_path starts_with ◌=ₜ◌ decimal
pulled = refl

pull_layer_sound_example :
    ((lookup (bytes "ab") [] ≡ some (meta (bytes "ab") (bytes "d/4"))) × (site 5 3 ≡ site 4 0))
    ⊎ ((lookup {V = LayerMeta} (bytes "ab") [] ≡ none)
        × Verified test_encoding test_crypto host none_wrapped none none
            (layer (bytes "ab"))
            (bytes "sha256:ab")
            (meta (bytes "ab") (bytes "d/4")))
pull_layer_sound_example =
    pull_layer_sound test_encoding test_crypto host none_wrapped none none [] app
      (layer (bytes "ab")) (bytes "sha256:ab") (site 4 0) (site 5 3)
      (meta (bytes "ab") (bytes "d/4")) pulled

abbrev metas : List ℕ
metas = 10 ∷ 20 ∷ []

abbrev ended : List (ℕ × ℕ)
ended = (1, 20) ∷ (0, 10) ∷ []

swapped : Permᴰ ended (enumerate 0 metas)
unfolding enumerate
swapped = Permᴰ.swap refl refl

async_pull_layers_in_order_example : async_pull_layers {E = PullError} (succeeded ended) ≡ ok metas
async_pull_layers_in_order_example = async_pull_layers_in_order {E = PullError} metas ended swapped

abbrev aba : List OciDescriptor
aba = layer (bytes "a") ∷ layer (bytes "b") ∷ layer (bytes "a") ∷ []

abbrev aba_ids : List Text
aba_ids = bytes "1" ∷ bytes "2" ∷ bytes "1" ∷ []

unique_layers_example :
    AreNew [] (unique_from [] aba_ids aba).0
    × ((x : OciDescriptor) → Memᴰ x aba → HasDigest (unique_from [] aba_ids aba).0 x.digest)
    × ((j : Job)
        → Memᴰ j (jobs (unique_from [] aba_ids aba).0 (unique_from [] aba_ids aba).1)
        → Memᴰ j (jobs aba aba_ids))
unique_layers_example = unique_layers aba_ids aba refl

abbrev fresh : Client env test_encoding test_crypto host none_wrapped none
fresh = record {
  registry_auth = none;
  signature_validator = some validator;
  snapshot = true;
  meta_store = record { image_db = []; layer_db = [] };
  site = site 0 1;
}

Reached-IsTrusted_example :
    IsTrusted env test_encoding test_crypto host none_wrapped none validator
      (pull_image env test_encoding test_crypto host none_wrapped none none
        (λ js. js)
        app
        (bytes "b")
        none
        fresh).0
Reached-IsTrusted_example =
    Reached-IsTrusted env test_encoding test_crypto host none_wrapped none validator
      (pulls none (λ js. js) app (bytes "b") none (start fresh refl refl refl))
