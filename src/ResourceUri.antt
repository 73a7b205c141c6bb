-- ===== src/ResourceUri.antt =====
-- attestation-agent/deps/resource_uri/src/lib.rs: the name of a resource that a key broker keeps.
pub mod Laws
mod Tests
use coco_guest_components.Common.{
  ℕ, zero, suc, ◌+◌, ◌/◌, ◌%◌, Bool, true, false, not, Option, none, some, List, [], ◌∷◌, ◌++◌, ltb,
  drop, get_or, if◌then◌else◌, Result, Checked, ok, err, ensure, ok_or, ◌>>=◌, ◌>>◌,
}
use coco_guest_components.Text.{Text, bytes, is_empty, split, starts_with, ◌=ₜ◌}
use coco_guest_components.Text.Decimal.{decimal}
use coco_guest_components.External.Url.{UrlCrate}

pub data UriError : Type 0 where
  resource_id_error scheme_must_be_kbs invalid_url must_start_with_slash bad_resource_path :
      UriError

-- `SCHEME`
abbrev pub kbs : Text
kbs = bytes "kbs"

pub record ResourceUri : Type 0 where
  pub kbs_addr : Text
  pub repository : Text
  pub type_name : Text
  pub tag : Text
  pub query : Option Text

-- The host with its port, if there is one: at most five digits.
unfoldable pub with_port : Text → Option ℕ → Text
with_port host none = host
with_port host (some port) = host ++ b':' ∷ decimal 5 port

-- The three parts of a path.
unfoldable pub of_parts : Text → Option Text → UriError → List Text → Result UriError ResourceUri
of_parts addr query e (repository ∷ type_name ∷ tag ∷ []) = ok (record {
  kbs_addr = addr;
  repository = repository;
  type_name = type_name;
  tag = tag;
  query = query;
})
of_parts addr query e [] = err e
of_parts addr query e (_ ∷ []) = err e
of_parts addr query e (_ ∷ _ ∷ []) = err e
of_parts addr query e (_ ∷ _ ∷ _ ∷ _ ∷ _) = err e

-- The parts of a path that starts with a slash: the first one is empty.
unfoldable pub of_slashed_parts : Text → List Text → Result UriError ResourceUri
of_slashed_parts addr [] = err bad_resource_path
of_slashed_parts addr (_ ∷ parts) = of_parts addr none bad_resource_path parts

unfoldable pub whole_uri : ResourceUri → Text
whole_uri r =
    let uri =
      kbs
      ++ bytes "://"
      ++ (r.kbs_addr ++ b'/' ∷ (r.repository ++ b'/' ∷ (r.type_name ++ b'/' ∷ r.tag))) in
    elim r.query [ some q ↦ uri ++ b'?' ∷ q | none ↦ uri ]

unfoldable pub resource_path : ResourceUri → Text
resource_path r = r.repository ++ b'/' ∷ (r.type_name ++ b'/' ∷ r.tag)

module _ (crate : UrlCrate) where
  open crate use {Url, parse, scheme, host_str, port, path, query}

  -- The address of a URL; a port without a host is dropped.
  unfoldable pub address : Url → Text
  address url =
      let host = get_or [] (host_str url) in
      if is_empty host then host else with_port host (port url)

  -- `TryFrom<url::Url>`
  unfoldable pub try_from_url : Url → Result UriError ResourceUri
  try_from_url url = do
    ensure (scheme url =ₜ kbs) scheme_must_be_kbs
    ensure (not (is_empty (path url))) resource_id_error
    of_parts (address url) (query url) resource_id_error (split b'/' (drop 1 (path url)))

  -- `TryFrom<&str>`
  unfoldable pub try_from : Text → Result UriError ResourceUri
  try_from value = do url ← ok_or (parse value) resource_id_error; try_from_url url

  -- The address that `new` takes: of a URL, or the text itself.
  unfoldable pub new_address : Text → Result UriError Text
  new_address kbs_uri = elim (parse kbs_uri) [
    | none ↦ ok kbs_uri
    | some url ↦ do kbs_host ← ok_or (host_str url) invalid_url; ok (with_port kbs_host (port url))
  ]

  -- `ResourceUri::new`
  unfoldable pub new : Text → Text → Result UriError ResourceUri
  new kbs_uri resource_path = do
    kbs_addr ← new_address kbs_uri
    ensure (starts_with (b'/' ∷ []) resource_path) must_start_with_slash
    of_slashed_parts kbs_addr (split b'/' resource_path)
