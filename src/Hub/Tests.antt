-- ===== src/Hub/Tests.antt =====
-- A secret in a vault, and credentials of which one leads out of the directory.
use coco_guest_components.Common.{◌≡◌, ◌⊎◌, true, some, List, [], ◌∷◌, All, ok, err}
use coco_guest_components.Text.{Text, bytes}
use coco_guest_components.External.Wrapping.{Disk}
use coco_guest_components.Hub.Kms.{illegal_credential_path}
use coco_guest_components.Hub.Secret.{
  Secret, vault, from_signed_base64_string, to_signed_base64_string,
}
use coco_guest_components.Hub.Secret.Laws.{from_signed-to_signed}
use coco_guest_components.Hub.Credentials.{IsPlaced, init_kbs_resources, init_kbs_resources_guard}
use coco_guest_components.Hub.Setup.{base64, base64_laws, aes, kms, secret_serde, secret_serde_laws}

abbrev secret : Secret (Unit {0})
secret = record {
  version = bytes "0.1.0";
  content = vault (record {
    name = bytes "kbs:///one/2/trois";
    provider = bytes "kbs";
    provider_settings = tt;
    annotations = tt;
  });
}

from_signed-to_signed_example :
    from_signed_base64_string
      (kms [])
      aes
      base64
      secret_serde
      (to_signed_base64_string (kms []) aes base64 secret_serde secret)
    ≡ ok secret
from_signed-to_signed_example =
    from_signed-to_signed (kms []) aes base64 secret_serde base64_laws secret_serde_laws secret

abbrev disk : Disk
disk = record {
  State = List Text;
  kbc_client = λ s. (s, true);
  get_secret = λ s v. (s, some v);
  create_dir_all = λ s p. (s, true);
  create_parent = λ s p. (s, true);
  write = λ s p content. (p ∷ s, true);
}

abbrev credentials : List (Text × Text)
credentials =
    (bytes "/run/confidential-containers/cdh/a", bytes "kbs:///a/b/c")
    ∷ (bytes "/run/confidential-containers/cdh/../b", bytes "kbs:///a/b/d")
    ∷ []

init_kbs_resources_guard_example :
    All (λ c. IsPlaced c.0) credentials
    ⊎ (init_kbs_resources disk credentials [] ≡ ([], err illegal_credential_path))
init_kbs_resources_guard_example = init_kbs_resources_guard disk credentials []
