-- ===== src/External/Kms.antt =====
-- The clients of key management services and vaults, which are network clients: their creation from
-- settings, and their calls.
use coco_guest_components.Common.{ℕ, Option, List}
use coco_guest_components.Text.{Text}

pub record KmsClients : Type 1 where
  pub State : Type 0
  -- `serde_json::Map<String, Value>`, and the empty one
  pub Json : Type 0
  pub empty : Json
  pub Decrypter : Type 0
  pub Getter : Type 0
  pub aliyun_decrypter : State → Json → State × Option Decrypter
  pub ehsm_decrypter : State → Json → State × Option Decrypter
  pub kbc_client : State → State × Option Getter
  pub aliyun_getter : State → Json → State × Option Getter
  pub decrypt : State → Decrypter → List ℕ → Text → Json → State × Option (List ℕ)
  pub get_secret : State → Getter → Text → Json → State × Option (List ℕ)
