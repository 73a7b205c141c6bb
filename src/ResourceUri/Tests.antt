-- ===== src/ResourceUri/Tests.antt =====
-- A crate that reads one URL, and the resources of two texts.
use coco_guest_components.Common.{◌≡◌, refl, ◌↔◌, none, some, ◌∷◌, ◌++◌, if◌then◌else◌, ok}
use coco_guest_components.Text.{Text, bytes, split, starts_with, strip_prefix, ◌=ₜ◌}
use coco_guest_components.Text.Decimal.{decimal}
use coco_guest_components.External.Url.{UrlCrate}
use coco_guest_components.ResourceUri.{
  ResourceUri, with_port, of_parts, of_slashed_parts, whole_uri, resource_path, try_from_url,
  new_address, new,
}
use coco_guest_components.ResourceUri.Laws.{
  IsPlain, Names, new_iff, whole_uri-new, try_from_url_iff,
}

abbrev crate : UrlCrate
crate = record {
  Url = Text;
  parse = λ t. if t =ₜ bytes "http://kbs:8080" then some t else none;
  scheme = λ u. bytes "kbs";
  host_str = λ u. some (bytes "kbs");
  port = λ u. some 8080;
  path = λ u. bytes "/repo/key/1";
  query = λ u. none;
}

abbrev resource : ResourceUri
resource = record {
  kbs_addr = bytes "kbs:8080";
  repository = bytes "repo";
  type_name = bytes "key";
  tag = bytes "1";
  query = none;
}

read_path : new crate (bytes "http://kbs:8080") (bytes "/repo/key/1") ≡ ok resource
unfolding new new_address with_port decimal of_slashed_parts of_parts split starts_with strip_prefix
    ◌=ₜ◌
read_path = refl

new_iff_example : (new crate (bytes "http://kbs:8080") (bytes "/repo/key/1") ≡ ok resource) ↔ (
    (new_address crate (bytes "http://kbs:8080") ≡ ok (bytes "kbs:8080"))
    × (bytes "/repo/key/1" ≡ b'/' ∷ resource_path resource)
    × IsPlain resource
    × (resource.query ≡ none))
new_iff_example = new_iff crate (bytes "http://kbs:8080") (bytes "/repo/key/1") resource

whole_uri-new_example :
    whole_uri resource ≡ bytes "kbs://" ++ (bytes "kbs:8080" ++ bytes "/repo/key/1")
whole_uri-new_example =
    whole_uri-new crate (bytes "http://kbs:8080") (bytes "/repo/key/1") resource read_path

try_from_url_iff_example :
    (try_from_url crate (bytes "kbs://kbs:8080/repo/key/1") ≡ ok resource)
    ↔ Names crate (bytes "kbs://kbs:8080/repo/key/1") resource
try_from_url_iff_example = try_from_url_iff crate (bytes "kbs://kbs:8080/repo/key/1") resource
