-- ===== src/EventLog/Log.antt =====
-- attestation-agent/attestation-agent/src/eventlog/mod.rs and `extend_runtime_measurement` of
-- src/lib.rs: the log file and the measurement register, extended together.
pub mod Parse
pub mod Laws
pub mod Reached
pub mod Recovery
use coco_guest_components.Common.{
  ℕ, Bool, true, false, not, Option, none, some, List, [], ◌∷◌, ◌++◌, get_or, if◌then◌else◌, Result,
  Checked, ok, err, ensure, ok_or, ◌>>=◌, ◌>>◌,
}
use coco_guest_components.Text.{Text, bytes, is_empty}
use coco_guest_components.External.Hex.{Hex}
use coco_guest_components.External.Tee.{Sha2, Attester}
use coco_guest_components.EventLog.Algorithm.{HashAlgorithm, name_of, digest_len, digest}
use coco_guest_components.EventLog.Entry.{
  LogError, write_failed, extend_failed, get_rtmr_failed, not_enabled, LogEntry, event, init,
  content_try_from, print_entry, digest_with, pad_zeros,
}
use coco_guest_components.EventLog.Replay.{AaEventlog, from_str, integrity_check}

-- What the operating system makes of one `writeln!`: all is written, or a part and then an error.
pub data Write : Type 0 where
  done : Write
  partly : Text → Write

-- `FileWriter` on the file's content; a file of `File::open` is open for reading only.
unfoldable pub append : Bool → Write → LogEntry → Text → Text × Checked LogError
append false _ entry file = (file, err write_failed)
append true (partly part) entry file = (file ++ part, err write_failed)
append true done entry file = (file ++ (print_entry entry ++ 10 ∷ []), ok tt)

module _ (hex : Hex) (sha : Sha2) (attester : Attester) where
  open attester use {State, get_runtime_measurement, extend_runtime_measurement}

  -- The file at `EVENTLOG_PATH`, if there is one, and the platform.
  pub record World : Type 0 where
    pub file : Option Text
    pub tee : State

  pub record EventLog : Type 0 where
    pub writable : Bool
    pub alg : HashAlgorithm
    pub pcr : ℕ

  abbrev pub log_of : World → Text
  log_of w = get_or [] w.file

  -- `rtmr_extender.extend_runtime_measurement`
  unfoldable pub extend_register : World → List ℕ → ℕ → World × Checked LogError
  extend_register w d pcr = elim (extend_runtime_measurement w.tee d pcr) [
    | none ↦ (w, err extend_failed)
    | some tee ↦ (record w { tee = tee }, ok tt)
  ]

  -- First the log is written, then the register is extended; the INIT entry is extended alike.
  unfoldable pub extend_entry : EventLog → World → Write → LogEntry → ℕ → World × Checked LogError
  extend_entry log w write entry pcr =
      let d = digest_with sha entry log.alg in
      let (file, result) = append log.writable write entry (log_of w) in
      elim result [
        | err e ↦ (record w { file = some file }, err e)
        | ok _ ↦ extend_register (record w { file = some file }) d pcr
      ]

  -- The INIT entry of a register's value.
  unfoldable pub init_entry : HashAlgorithm → List ℕ → LogEntry
  init_entry alg register = init alg (pad_zeros (digest_len alg) (hex.encode register))

  unfoldable pub extend_init_entry : EventLog → World → Write → World × Checked LogError
  extend_init_entry log w write = elim (get_runtime_measurement w.tee log.pcr) [
    | none ↦ (w, err get_rtmr_failed)
    | some register ↦ extend_entry log w write (init_entry log.alg register) log.pcr
  ]

  -- The object, when its INIT entry was extended.
  abbrev pub with_init : EventLog → World × Checked LogError → World × Result LogError EventLog
  with_init log (w, ok _) = (w, ok log)
  with_init log (w, err e) = (w, err e)

  -- The digest that `new` extends the register with, when it finds that the two disagree.
  unfoldable pub unfinished_digest : HashAlgorithm → AaEventlog → List ℕ
  unfinished_digest alg aael = elim aael.events [
    | [] ↦ digest sha alg (
        bytes "INIT "
        ++ (name_of aael.hash_algorithm
            ++ b'/' ∷ pad_zeros (digest_len aael.hash_algorithm) (hex.encode aael.init_state)))
    | first ∷ _ ↦ digest sha alg first
  ]

  -- A log with content: it is parsed and compared with the register.
  unfoldable pub reopen : World → HashAlgorithm → ℕ → Text → World × Result LogError EventLog
  reopen w alg pcr content =
      let log : EventLog = record { writable = true; alg = alg; pcr = pcr } in
      elim (from_str hex content) [
        | err e ↦ (w, err e)
        | ok aael ↦ elim (get_runtime_measurement w.tee pcr) [
          | none ↦ (w, err get_rtmr_failed)
          | some rtmr ↦
              if integrity_check hex sha aael rtmr
              then (w, ok log)
              else with_init log (extend_register w (unfinished_digest alg aael) pcr)
        ]
      ]

  -- `EventLog::new`
  unfoldable pub new : World → Write → HashAlgorithm → ℕ → World × Result LogError EventLog
  new w write alg pcr = elim w.file [
    | none ↦
        let log : EventLog = record { writable = true; alg = alg; pcr = pcr } in
        with_init log (extend_init_entry log (record w { file = some [] }) write)
    | some content ↦
        if is_empty content
        then (let log : EventLog = record { writable = false; alg = alg; pcr = pcr } in
            with_init log (extend_init_entry log w write))
        else reopen w alg pcr content
  ]

  -- The agent's `extend_runtime_measurement`; `init_pcr` is the default of its configuration.
  unfoldable pub extend_measurement :
      Option EventLog → World → Write → ℕ → Text → Text → Text → Option ℕ → World × Checked LogError
  extend_measurement none w write init_pcr domain operation content register_index =
      (w, err not_enabled)
  extend_measurement (some log) w write init_pcr domain operation content register_index =
      elim (content_try_from content) [
        | err e ↦ (w, err e)
        | ok c ↦
            extend_entry log w write (event domain operation c) (get_or init_pcr register_index)
      ]
