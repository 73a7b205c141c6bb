-- ===== src/EventLog/Entry.antt =====
-- attestation-agent/attestation-agent/src/eventlog/mod.rs: what is written into the log.
use coco_guest_components.Common.{ℕ, ◌-◌, not, List, ◌∷◌, ◌++◌, length, Result, ok, ensure, ◌>>◌}
use coco_guest_components.Text.{Text, bytes, contains}
use coco_guest_components.External.Concrete.{replicate}
use coco_guest_components.External.Tee.{Sha2}
use coco_guest_components.EventLog.Algorithm.{HashAlgorithm, name_of, digest}

pub data LogError : Type 0 where
  content_contains_newline not_enabled write_failed extend_failed get_rtmr_failed : LogError
  no_line illegal_init no_init_keyword no_slash bad_algorithm bad_hex : LogError

pub record Content : Type 0 where
  pub text : Text

-- `Content::try_from`
unfoldable pub content_try_from : Text → Result LogError Content
content_try_from value = do
  ensure (not (contains 10 value)) content_contains_newline
  ok (record { text = value })

pub data LogEntry : Type 0 where
  event : Text → Text → Content → LogEntry
  init : HashAlgorithm → Text → LogEntry

-- `Display`
unfoldable pub print_entry : LogEntry → Text
print_entry (event domain operation content) = domain ++ b' ' ∷ (operation ++ b' ' ∷ content.text)
print_entry (init hash_alg value) = bytes "INIT " ++ (name_of hash_alg ++ b'/' ∷ value)

-- `digest_with`
unfoldable pub digest_with : Sha2 → LogEntry → HashAlgorithm → List ℕ
digest_with sha entry hash_alg = digest sha hash_alg (print_entry entry)

-- `format!("{:0>width$}", value, width = width)`
unfoldable pub pad_zeros : ℕ → Text → Text
pad_zeros width value = replicate (width - length value) b'0' ++ value
