-- ===== src/Auth/Tests.antt =====
-- The credential of one image under a small file.
use coco_guest_components.Common.{ℕ, ◌≡◌, refl, ◌≢◌, ◌⊎◌, Option, some, List, [], ◌∷◌, Memᴰ, ok}
use coco_guest_components.Text.{Text, bytes, strip_prefix, split_once, rsplit_once, ◌=ₜ◌}
use coco_guest_components.Text.Map.{lookup}
use coco_guest_components.Text.Utf8.{from_utf8}
use coco_guest_components.External.Concrete.{oci}
use coco_guest_components.Auth.{
  Auths, anonymous, basic, shorter_keys, auth_keys_for_key, normalize_registry,
  normalize_key_to_registry, before_slash, trim_start_newlines, trim_end_newlines, decode_auth,
  find_registry, full_name, chosen_auth, credential_from_auth_config,
}
use coco_guest_components.Auth.Laws.{
  NoKey, IsEntitled, registry_of, credential_from_auth_config_sound,
}

abbrev plain : Text → Option (List ℕ)
plain t = some t

abbrev auths : Auths
auths = (bytes "https://reg/v1", bytes "u:p") ∷ (bytes "reg/team", bytes "me:secret") ∷ []

abbrev image : Text
image = bytes "reg/team/app:v1"

own_entry :
    credential_from_auth_config oci plain image auths ≡ ok (basic (bytes "me") (bytes "secret"))
unfolding credential_from_auth_config chosen_auth auth_keys_for_key shorter_keys full_name lookup
    decode_auth from_utf8 split_once rsplit_once trim_start_newlines trim_end_newlines ◌=ₜ◌
own_entry = refl

by_registry :
    credential_from_auth_config oci plain (bytes "reg/other:v1") auths
    ≡ ok (basic (bytes "u") (bytes "p"))
unfolding credential_from_auth_config chosen_auth auth_keys_for_key shorter_keys full_name lookup
    decode_auth from_utf8 split_once rsplit_once trim_start_newlines trim_end_newlines ◌=ₜ◌
    find_registry normalize_registry normalize_key_to_registry before_slash strip_prefix
by_registry = refl

credential_from_auth_config_sound_example :
    ((auth username password : Text) × (basic (bytes "me") (bytes "secret")
        ≡ basic username password)
      × (decode_auth plain auth ≡ ok (username, password))
      × IsEntitled oci plain image auths auth)
    ⊎ ((basic (bytes "me") (bytes "secret") ≡ anonymous)
        × NoKey oci plain image auths
        × ((key auth : Text)
            → Memᴰ (key, auth) auths
            → normalize_key_to_registry key ≢ registry_of oci plain image))
credential_from_auth_config_sound_example =
    credential_from_auth_config_sound oci plain image auths (basic (bytes "me") (bytes "secret"))
      own_entry
