-- ===== src/External/Url.antt =====
-- The crate `url`.
use coco_guest_components.Common.{ℕ, Option}
use coco_guest_components.Text.{Text}

pub record UrlCrate : Type 1 where
  pub Url : Type 0
  pub parse : Text → Option Url
  pub scheme : Url → Text
  pub host_str : Url → Option Text
  -- absent if it is the scheme's default
  pub port : Url → Option ℕ
  pub path : Url → Text
  pub query : Url → Option Text
