-- ===== src/EventLog/Replay.antt =====
-- attestation-agent/attestation-agent/src/eventlog/event.rs: reading a log back and replaying it.
use coco_guest_components.Common.{
  ℕ, Bool, Option, none, some, List, [], ◌∷◌, ◌++◌, map, Result, ok, err, ensure, ok_or, ◌>>=◌,
  ◌>>◌,
}
use coco_guest_components.Text.{Text, bytes, ◌=ₜ◌, split_once}
use coco_guest_components.External.Hex.{Hex}
use coco_guest_components.External.Tee.{Sha2}
use coco_guest_components.EventLog.Lines.{lines, split_ascii_whitespace, trim_end}
use coco_guest_components.EventLog.Algorithm.{HashAlgorithm, name_of, digest, algorithm_from_str}
use coco_guest_components.EventLog.Entry.{
  LogError, no_line, illegal_init, no_init_keyword, no_slash, bad_algorithm, bad_hex,
}

pub record AaEventlog : Type 0 where
  pub hash_algorithm : HashAlgorithm
  pub init_state : List ℕ
  pub events : List Text

-- `split_first` of the lines
abbrev pub split_first : List Text → Option (Text × List Text)
split_first [] = none
split_first (l ∷ ls) = some (l, ls)

-- The two items of the INIT line: there are exactly two, and the first is the keyword.
abbrev pub init_item : List Text → Result LogError Text
init_item (keyword ∷ value ∷ []) = do ensure (keyword =ₜ bytes "INIT") no_init_keyword; ok value
init_item [] = err illegal_init
init_item (_ ∷ []) = err illegal_init
init_item (_ ∷ _ ∷ _ ∷ _) = err illegal_init

module _ (hex : Hex) where
  -- `AaEventlog::from_str`
  unfoldable pub from_str : Text → Result LogError AaEventlog
  from_str input = do
    (initline, eventlines) ← ok_or (split_first (lines input)) no_line
    value ← init_item (split_ascii_whitespace initline)
    (algorithm, state) ← ok_or (split_once b'/' value) no_slash
    hash_algorithm ← ok_or (algorithm_from_str algorithm) bad_algorithm
    init_state ← ok_or (hex.decode state) bad_hex
    ok (record {
      hash_algorithm = hash_algorithm;
      init_state = init_state;
      events = map trim_end eventlines;
    })

  module _ (sha : Sha2) where
    -- One event on top of the state so far.
    unfoldable pub extend_state : HashAlgorithm → List ℕ → Text → List ℕ
    extend_state alg state event = digest sha alg (state ++ digest sha alg event)

    unfoldable pub accumulate_events : HashAlgorithm → List ℕ → List Text → List ℕ
    accumulate_events alg state [] = state
    accumulate_events alg state (event ∷ events) =
        accumulate_events alg (extend_state alg state event) events

    -- `accumulate_hash`, at the log's hash algorithm
    unfoldable pub accumulate_hash : AaEventlog → List ℕ
    accumulate_hash log =
        let init_event =
          bytes "INIT " ++ (name_of log.hash_algorithm ++ b'/' ∷ hex.encode log.init_state) in
        accumulate_events log.hash_algorithm
          (extend_state log.hash_algorithm log.init_state init_event) log.events

    unfoldable pub integrity_check : AaEventlog → List ℕ → Bool
    integrity_check log rtmr = rtmr =ₜ accumulate_hash log
