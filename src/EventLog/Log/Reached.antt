-- ===== src/EventLog/Log/Reached.antt =====
-- The histories of a log: created, extended by measurements, and reopened by an agent that restarts.
use coco_guest_components.Common.{
  ℕ, ◌*◌, ◌≤◌, ◌≡◌, sym, subst, ap, ◌∙◌, true, false, none, some, List, [], ◌∷◌, ◌++◌, length, ok,
  arith,
}
use coco_guest_components.Text.{Text, is_empty}
use coco_guest_components.External.Hex.{Hex, HexLaws}
use coco_guest_components.External.Tee.{Sha2, Attester, AttesterLaws}
use coco_guest_components.EventLog.Algorithm.{HashAlgorithm, digest_len, digest}
use coco_guest_components.EventLog.Entry.{content_try_from, event, print_entry}
use coco_guest_components.EventLog.Replay.{AaEventlog, from_str, integrity_check}
use coco_guest_components.EventLog.Log.{
  Write, World, EventLog, extend_entry, reopen, new, extend_measurement,
}
use coco_guest_components.EventLog.Log.Parse.{IsLogLine}
use coco_guest_components.EventLog.Log.Laws.{
  Replays, fresh, Replays-check, Replays-extend, Replays-new,
}

-- The line of an event.
abbrev pub event_line : Text → Text → Text → Text
event_line domain operation content = domain ++ b' ' ∷ (operation ++ b' ' ∷ content)

module _ (hex : Hex) (hex_laws : HexLaws hex) (sha : Sha2) (attester : Attester) where
  open attester use {get_runtime_measurement}

  abbrev pub Machine : Type 0
  Machine = World hex sha attester

  -- What happened to the machine, with the lines that were measured.
  pub data Reached (alg : HashAlgorithm) (pcr : ℕ) : Machine → List Text → Type 0 where
    created :
        (w w' : Machine) (write : Write) (log : EventLog hex sha attester) (r : List ℕ)
        → w.file ≡ none
        → get_runtime_measurement w.tee pcr ≡ some r
        → digest_len alg ≤ 2 * length r
        → new hex sha attester w write alg pcr ≡ (w', ok log)
        → Reached alg pcr w' []
    measured :
        (w w' : Machine) (lines : List Text) (write : Write) (init_pcr : ℕ)
        (domain operation content : Text)
        → Reached alg pcr w lines
        → IsLogLine (event_line domain operation content)
        → extend_measurement hex sha attester
            (some (fresh hex sha attester alg pcr))
            w
            write
            init_pcr
            domain
            operation
            content
            (some pcr)
          ≡ (w', ok tt)
        → Reached alg pcr w' (lines ++ event_line domain operation content ∷ [])
    reopened :
        (w w' : Machine) (lines : List Text) (write : Write) (log : EventLog hex sha attester)
        → Reached alg pcr w lines
        → new hex sha attester w write alg pcr ≡ (w', ok log)
        → Reached alg pcr w' lines

  -- A measurement that succeeds extends the entry of its line.
  measured_entry :
      (log : EventLog hex sha attester) (w w' : Machine) (write : Write) (init_pcr : ℕ)
      (domain operation content : Text) (pcr : ℕ)
      → extend_measurement hex sha attester
          (some log)
          w
          write
          init_pcr
          domain
          operation
          content
          (some pcr)
        ≡ (w', ok tt)
      → extend_entry hex sha attester log w write
          (event domain operation (record { text = content }))
          pcr
        ≡ (w', ok tt)
  unfolding extend_measurement content_try_from
  measured_entry log w w' write init_pcr domain operation content pcr h = ground (arith, h)

  reopen_good :
      (w : Machine) (alg : HashAlgorithm) (pcr : ℕ) (content : Text) (rtmr : List ℕ)
      (aael : AaEventlog)
      → from_str hex content ≡ ok aael
      → get_runtime_measurement w.tee pcr ≡ some rtmr
      → integrity_check hex sha aael rtmr ≡ true
      → reopen hex sha attester w alg pcr content ≡ (w, ok (fresh hex sha attester alg pcr))
  unfolding reopen
  reopen_good w alg pcr content rtmr aael parsed got good = ground (arith, parsed, got, good)

  pub new-some :
      (w : Machine) (write : Write) (alg : HashAlgorithm) (pcr : ℕ) (content : Text)
      → w.file ≡ some content
      → is_empty content ≡ false
      → new hex sha attester w write alg pcr ≡ reopen hex sha attester w alg pcr content
  unfolding new
  new-some w write alg pcr content file full = ground (arith, file, full)

  -- Reopening a log that passes the check changes nothing.
  reopen_consistent :
      (w : Machine) (alg : HashAlgorithm) (pcr : ℕ) (lines : List Text) (write : Write)
      → Replays hex sha attester w alg pcr lines
      → new hex sha attester w write alg pcr ≡ (w, ok (fresh hex sha attester alg pcr))
  reopen_consistent w alg pcr lines write r =
      let (content, rtmr, aael, file, got, parsed, _, good) =
        Replays-check hex hex_laws sha attester w alg pcr lines r in
      let full : is_empty content ≡ false = ground (arith, file, r.text) in
      new-some w write alg pcr content file full
      ∙ reopen_good w alg pcr content rtmr aael parsed got good

  pub Reached-Replays :
      (alg : HashAlgorithm) (pcr : ℕ) (w : Machine) (lines : List Text)
      → AttesterLaws attester (digest sha alg)
      → Reached alg pcr w lines
      → Replays hex sha attester w alg pcr lines
  unfolding print_entry
  Reached-Replays alg pcr _ _ laws (created w w' write log r none_yet got long h) =
      (Replays-new hex hex_laws sha attester w w' write alg pcr log r laws none_yet got long h).1
  Reached-Replays alg pcr _ _ laws
        (measured w w' before write init_pcr domain operation content past line h) =
      let log = fresh hex sha attester alg pcr in
      Replays-extend hex hex_laws sha attester log w w' write
        (event domain operation (record { text = content })) before laws
        (Reached-Replays alg pcr w before laws past) line
        (measured_entry log w w' write init_pcr domain operation content pcr h)
  Reached-Replays alg pcr _ _ laws (reopened w w' before write log past h) =
      let r = Reached-Replays alg pcr w before laws past in
      subst (λ v. Replays hex sha attester v alg pcr before)
        (ap (λ p. p.0) (sym (reopen_consistent w alg pcr before write r) ∙ h)) r

  -- Whatever line of events led to it, a log that an agent created, extended through
  -- `extend_runtime_measurement` at its own register and reopened is read back as exactly the lines
  -- that were measured, in order, and passes the integrity check against that register. The lines
  -- measured hold no newline and end in no whitespace, the platform extends the register with the
  -- log's hash, and a new register has at least half the digest's size.
  pub Reached-checks :
      (alg : HashAlgorithm) (pcr : ℕ) (w : Machine) (lines : List Text)
      → AttesterLaws attester (digest sha alg)
      → Reached alg pcr w lines
      → (content : Text) × (rtmr : List ℕ) × (aael : AaEventlog) × (w.file ≡ some content)
        × (get_runtime_measurement w.tee pcr ≡ some rtmr)
        × (from_str hex content ≡ ok aael)
        × (aael.events ≡ lines)
        × (integrity_check hex sha aael rtmr ≡ true)
  Reached-checks alg pcr w lines laws run =
      Replays-check hex hex_laws sha attester w alg pcr lines
        (Reached-Replays alg pcr w lines laws run)
