-- ===== src/External/Files.antt =====
-- The file system, as the helpers of ocicrypt-rs read it.
use coco_guest_components.Common.{ℕ, Bool, Option, List}
use coco_guest_components.Text.{Text}

pub record Files : Type 0 where
  pub read : Text → Option (List ℕ)
  pub exists : Text → Bool
  -- the text behind a file descriptor, by its sign and its absolute value
  pub read_fd : Bool → ℕ → Option Text
