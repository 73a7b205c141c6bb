-- ===== src/Signature/Image.antt =====
-- image-rs/src/signature/image/mod.rs: an image by its reference and manifest digest, its
-- repository name and the namespaces that a policy may name.
pub mod Digest
pub mod Namespaces
use coco_guest_components.Common.{
  ℕ, zero, suc, ◌≡◌, Option, none, some, List, [], ◌∷◌, ◌++◌, if◌then◌else◌, length, Result, ◌>>=◌,
  ok,
}
use coco_guest_components.Text.{Text, bytes, is_empty, split_once, rsplit_once}
use coco_guest_components.External.Oci.{OciClient}
use coco_guest_components.External.Hex.{Hex}
use Digest.{ParseError, empty_digest, parse}

-- `TransportName::Docker.to_string()`, the only transport
abbrev pub docker : Text
docker = bytes "docker"

-- The loop that cuts the last path component off, with the name that is left.
path_loop : ℕ → List Text → Text → List Text × Text
path_loop zero res name = (res, name)
path_loop (suc f) res name = elim (rsplit_once b'/' name) [
  | none ↦ (res ++ name ∷ [], name)
  | some (a, _) ↦ path_loop f (res ++ name ∷ []) a
]

-- `if let Some(n) = name.rsplit_once(':')`: the port is cut off
unfoldable pub without_port : Text → Text
without_port name = elim (rsplit_once b':' name) [ none ↦ name | some (a, _) ↦ a ]

-- The loop that cuts the first domain label off.
domain_loop : ℕ → List Text → Text → List Text
domain_loop zero res name = res
domain_loop (suc f) res name = elim (split_once b'.' name) [
  | none ↦ res
  | some (_, b) ↦ domain_loop f (res ++ (bytes "*." ++ b) ∷ []) b
]

-- Each round shortens the name, so its length bounds the rounds of both loops.
unfoldable pub namespaces_of : Text → List Text
unfolding path_loop without_port domain_loop
namespaces_of full =
    let (res, name) = path_loop (suc (length full)) [] full in
    let host = without_port name in domain_loop (suc (length host)) res host

module _ (oci : OciClient) where
  open oci use {Reference, registry, repository}

  pub record Image : Type 0 where
    pub reference : Reference
    pub manifest_digest : Digest.Digest

  unfoldable pub default_with_reference : Reference → Image
  default_with_reference r = record { reference = r; manifest_digest = empty_digest }

  unfoldable pub transport_name : Image → Text
  transport_name image = docker

  unfoldable pub set_manifest_digest : Hex → Image → Text → Result ParseError Image
  set_manifest_digest hex image digest = do
    d ← parse hex digest
    ok (record image { manifest_digest = d })

  unfoldable pub get_image_repository_full_name : Reference → Text
  get_image_repository_full_name r =
      if is_empty (registry r) then repository r else registry r ++ b'/' ∷ repository r

  unfoldable pub get_image_namespaces : Reference → List Text
  get_image_namespaces r = namespaces_of (get_image_repository_full_name r)
