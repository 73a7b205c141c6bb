-- ===== src/Auth.antt =====
-- image-rs/src/auth: the credential that the registry of an image gets. An auth file is the list of
-- its entries in the order in which the map iterates.
pub mod Laws
mod Tests
use coco_guest_components.Common.{
  ℕ, zero, suc, Bool, true, false, ◌&&◌, ◌||◌, Option, none, some, List, [], ◌∷◌, ◌++◌, ◌==◌,
  length, get_or, find_map, if◌then◌else◌, Result, ok, err, ok_or, ◌>>=◌,
}
use coco_guest_components.Text.{Text, bytes, is_empty, strip_prefix, split_once, rsplit_once, ◌=ₜ◌}
use coco_guest_components.Text.Map.{lookup}
use coco_guest_components.Text.Utf8.{from_utf8}
use coco_guest_components.External.Oci.{OciClient}

pub data AuthError : Type 0 where
  bad_base64 bad_utf8 illegal_auth_content : AuthError

-- `HashMap<String, DockerAuthConfig>`: the field `auth` of each key
abbrev pub Auths : Type 0
Auths = List (Text × Text)

-- `oci_client::secrets::RegistryAuth`, as far as it is used
pub data RegistryAuth : Type 0 where
  anonymous : RegistryAuth
  basic : Text → Text → RegistryAuth

-- `while let Some(r) = key.rfind('/')`; each round shortens the key.
unfoldable pub shorter_keys : ℕ → Text → List Text
shorter_keys zero key = []
shorter_keys (suc f) key = elim (rsplit_once b'/' key) [
  | none ↦ []
  | some (shorter, _) ↦ shorter ∷ shorter_keys f shorter
]

unfoldable pub auth_keys_for_key : Text → List Text
auth_keys_for_key key = key ∷ shorter_keys (length key) key

unfoldable pub normalize_registry : Text → Text
normalize_registry registry =
    if registry =ₜ bytes "registry-1.docker.io" || registry =ₜ bytes "docker.io"
    then bytes "index.docker.io"
    else registry

-- What stands before the first slash, or everything.
unfoldable pub before_slash : Text → Text
before_slash t = elim (split_once b'/' t) [ none ↦ t | some (a, _) ↦ a ]

unfoldable pub normalize_key_to_registry : Text → Text
normalize_key_to_registry key =
    let http = get_or key (strip_prefix (bytes "http://") key) in
    let stripped = get_or http (strip_prefix (bytes "https://") key) in
    normalize_registry (if stripped =ₜ key then stripped else before_slash stripped)

-- `trim_matches('\n')`
unfoldable pub trim_start_newlines : Text → Text
trim_start_newlines [] = []
trim_start_newlines (x ∷ t) = let rest = trim_start_newlines t in if x == 10 then rest else x ∷ t

unfoldable pub trim_end_newlines : Text → Text
trim_end_newlines [] = []
trim_end_newlines (x ∷ t) =
    let rest = trim_end_newlines t in if x == 10 && is_empty rest then [] else x ∷ rest

unfoldable pub decode_auth : (Text → Option (List ℕ)) → Text → Result AuthError (Text × Text)
decode_auth base64_decode auth = do
  decoded ← ok_or (base64_decode auth) bad_base64
  content ← ok_or (from_utf8 decoded) bad_utf8
  (username, password) ← ok_or (split_once b':' content) illegal_auth_content
  ok (username, trim_end_newlines (trim_start_newlines password))

-- The first entry whose key is normalized to the registry.
unfoldable pub find_registry : Text → Auths → Option Text
find_registry registry [] = none
find_registry registry ((key, auth) ∷ rest) =
    let later = find_registry registry rest in
    if normalize_key_to_registry key =ₜ registry then some auth else later

module _ (oci : OciClient) (base64_decode : Text → Option (List ℕ)) where
  open oci use {Reference, registry, repository, resolve_registry}

  unfoldable pub full_name : Reference → Text
  full_name r = if is_empty (registry r) then repository r else registry r ++ b'/' ∷ repository r

  -- The text of the credential that is used, if there is one.
  unfoldable pub chosen_auth : Reference → Auths → Option Text
  chosen_auth reference auths =
      elim (find_map (λ key. lookup key auths) (auth_keys_for_key (full_name reference))) [
        | some auth ↦ some auth
        | none ↦ find_registry (normalize_registry (resolve_registry reference)) auths
      ]

  -- `credential_from_auth_config`
  unfoldable pub credential_from_auth_config : Reference → Auths → Result AuthError RegistryAuth
  credential_from_auth_config reference auths = elim (chosen_auth reference auths) [
    | none ↦ ok anonymous
    | some auth ↦ do
      (username, password) ← decode_auth base64_decode auth
      ok (basic username password)
  ]
