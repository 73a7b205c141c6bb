-- ===== src/External/Wrapping.antt =====
-- What the key provider takes from outside: files, randomness, identifiers, and the key broker that a
-- key is registered with.
use coco_guest_components.Common.{ℕ, Bool, Option, List}
use coco_guest_components.Text.{Text}

pub record Provider : Type 1 where
  pub State : Type 0
  pub read_file : State → Text → State × Option (List ℕ)
  -- so many random bytes
  pub random_bytes : State → ℕ → State × Option (List ℕ)
  pub uuid : State → State × Text
  -- a URL and an Ed25519 key pair
  pub Address : Type 0
  pub KeyPair : Type 0
  -- a token signed for two hours
  pub sign : State → KeyPair → State × Option Text
  -- a request at a path of the broker, with a token and a body: whether an answer came
  pub post : State → Address → Text → Text → List ℕ → State × Bool

-- The file system with a key broker's client, for the hub's credentials.
pub record Disk : Type 1 where
  pub State : Type 0
  pub kbc_client : State → State × Bool
  pub get_secret : State → Text → State × Option (List ℕ)
  pub create_dir_all : State → Text → State × Bool
  -- `create_dir_all` of the path's parent, if it has one
  pub create_parent : State → Text → State × Bool
  pub write : State → Text → List ℕ → State × Bool
