-- ===== src/EventLog/Log/Recovery.antt =====
-- What an agent that restarts makes of a log that is one line ahead of the register.
use coco_guest_components.Common.{
  ℕ, ◌≡◌, refl, sym, ap, ◌∙◌, ◌≢◌, false, some, List, [], ◌∷◌, ◌++◌, All-append, get_or, ok, err,
  arith,
}
use coco_guest_components.Text.{Text, ◌=ₜ◌}
use coco_guest_components.Text.Laws.{text_ne}
use coco_guest_components.External.Hex.{Hex, HexLaws}
use coco_guest_components.External.Tee.{Sha2, Attester, AttesterLaws}
use coco_guest_components.EventLog.Algorithm.{HashAlgorithm, digest}
use coco_guest_components.EventLog.Entry.{extend_failed, LogEntry, print_entry}
use coco_guest_components.EventLog.Replay.{
  AaEventlog, from_str, extend_state, accumulate_hash, integrity_check,
}
use coco_guest_components.EventLog.Log.{
  Write, append, World, EventLog, log_of, extend_register, extend_entry, with_init,
  unfinished_digest, reopen, new,
}
use coco_guest_components.EventLog.Log.Parse.{
  IsLogLine, whole_log, init_line, log_text-snoc, parse_log,
}
use coco_guest_components.EventLog.Log.Laws.{
  Replays, fresh, replayed, accumulate-snoc, with_init-eq-ok,
}
use coco_guest_components.EventLog.Log.Reached.{new-some}

-- The first of the lines and the one behind them.
abbrev pub first_of : List Text → Text → Text
first_of [] line = line
first_of (l ∷ _) line = l

module _ (hex : Hex) (sha : Sha2) (attester : Attester) where
  open attester use {get_runtime_measurement, extend_runtime_measurement}

  -- The entry stands in the file, and the platform is as before.
  failed_entry :
      (log : EventLog hex sha attester) (w w' : World hex sha attester) (write : Write)
      (entry : LogEntry) (pcr : ℕ)
      → extend_entry hex sha attester log w write entry pcr ≡ (w', err extend_failed)
      → (w'.file ≡ some (log_of hex sha attester w ++ (print_entry entry ++ 10 ∷ [])))
        × (w'.tee ≡ w.tee)
  unfolding extend_entry append extend_register
  failed_entry log w w' write entry pcr h = ground (arith, h)

  -- A log that does not pass the check is extended once more.
  reopen_behind :
      (w : World hex sha attester) (alg : HashAlgorithm) (pcr : ℕ) (content : Text) (rtmr : List ℕ)
      (aael : AaEventlog)
      → from_str hex content ≡ ok aael
      → get_runtime_measurement w.tee pcr ≡ some rtmr
      → integrity_check hex sha aael rtmr ≡ false
      → reopen hex sha attester w alg pcr content
        ≡ with_init hex sha attester
            (fresh hex sha attester alg pcr)
            (extend_register hex sha attester w (unfinished_digest hex sha attester alg aael) pcr)
  unfolding reopen
  reopen_behind w alg pcr content rtmr aael parsed got bad = ground (arith, parsed, got, bad)

  register_extended :
      (w w' : World hex sha attester) (d : List ℕ) (pcr : ℕ)
      → extend_register hex sha attester w d pcr ≡ (w', ok tt)
      → (extend_runtime_measurement w.tee d pcr ≡ some w'.tee) × (w'.file ≡ w.file)
  unfolding extend_register
  register_extended w w' d pcr h = ground (arith, h)

  unfinished_first :
      (alg : HashAlgorithm) (init_state : List ℕ) (lines : List Text) (line : Text)
      → unfinished_digest hex sha attester alg
          (record { hash_algorithm = alg; init_state = init_state; events = lines ++ line ∷ [] })
        ≡ digest sha alg (first_of lines line)
  unfolding unfinished_digest
  unfinished_first alg init_state [] line = refl
  unfinished_first alg init_state (l ∷ lines) line = refl

  replayed-snoc :
      (alg : HashAlgorithm) (init_state : List ℕ) (lines : List Text) (line : Text)
      → accumulate_hash hex sha
          (record { hash_algorithm = alg; init_state = init_state; events = lines ++ line ∷ [] })
        ≡ digest sha alg (
            accumulate_hash hex sha
              (record { hash_algorithm = alg; init_state = init_state; events = lines })
            ++ digest sha alg line)
  unfolding accumulate_hash extend_state
  replayed-snoc alg init_state lines line =
      accumulate-snoc hex sha attester alg
        (extend_state hex sha alg init_state (init_line alg (hex.encode init_state))) lines line

module _ (hex : Hex) (hex_laws : HexLaws hex) (sha : Sha2) (attester : Attester) where
  open attester use {get_runtime_measurement, extend_runtime_measurement}

  -- Restarting after an entry was written whose extension of the register failed: the register is
  -- extended with the FIRST line of the log. The log then passes the check exactly if that gives the
  -- value that extending with the last line gives, as it does when the unfinished line is the only
  -- one. The log replayed before, the line is read back as it was written, and no extension with the
  -- line leaves a register as it is.
  pub new_after_crash :
      (alg : HashAlgorithm) (pcr : ℕ) (w w1 w2 : World hex sha attester) (lines : List Text)
      (write write' : Write) (entry : LogEntry) (log : EventLog hex sha attester)
      → AttesterLaws attester (digest sha alg)
      → ((s : List ℕ) → digest sha alg (s ++ digest sha alg (print_entry entry)) ≢ s)
      → Replays hex sha attester w alg pcr lines
      → IsLogLine (print_entry entry)
      → extend_entry hex sha attester (fresh hex sha attester alg pcr) w write entry pcr
        ≡ (w1, err extend_failed)
      → new hex sha attester w1 write' alg pcr ≡ (w2, ok log)
      → (old rtmr : List ℕ) × (content : Text) × (aael : AaEventlog) × (get_runtime_measurement
            w.tee pcr
          ≡ some old)
        × (w2.file ≡ some content)
        × (from_str hex content ≡ ok aael)
        × (aael.events ≡ lines ++ print_entry entry ∷ [])
        × (get_runtime_measurement w2.tee pcr ≡ some rtmr)
        × (integrity_check hex sha aael rtmr
            ≡ digest sha alg (old ++ digest sha alg (first_of lines (print_entry entry)))
              =ₜ digest sha alg (old ++ digest sha alg (print_entry entry)))
  unfolding integrity_check
  new_after_crash alg pcr w w1 w2 lines write write' entry log laws moves r line crash h =
      let (file1, tee1) =
        failed_entry hex sha attester (fresh hex sha attester alg pcr) w w1 write entry pcr crash in
      let events = lines ++ print_entry entry ∷ [] in
      let aael : AaEventlog = record {
        hash_algorithm = alg;
        init_state = r.init_state;
        events = events;
      } in
      let content = whole_log hex alg r.init_state events in
      let old = replayed hex hex_laws sha attester alg r.init_state lines in
      let now = digest sha alg (old ++ digest sha alg (print_entry entry)) in
      let file : w1.file ≡ some content =
        file1
        ∙ ap (λ f. some (get_or [] f ++ (print_entry entry ++ 10 ∷ []))) r.text
        ∙ ap some (
            sym (
              log_text-snoc (init_line alg (hex.encode r.init_state) ∷ lines)
                (print_entry entry))) in
      let parsed =
        parse_log hex hex_laws alg r.init_state events r.init_state-IsByte
          (All-append IsLogLine lines (print_entry entry ∷ []) r.events-IsLogLine (line, tt)) in
      let got1 = ap (λ t. get_runtime_measurement t pcr) tee1 ∙ r.register in
      let bad : integrity_check hex sha aael old ≡ false =
        text_ne old (accumulate_hash hex sha aael) (λ e.
          moves old (
            sym (e ∙ replayed-snoc hex sha attester alg r.init_state lines (print_entry entry)))) in
      let (ext, same) =
        with_init-eq-ok hex hex_laws sha attester (fresh hex sha attester alg pcr) log
          (extend_register hex sha attester w1 (unfinished_digest hex sha attester alg aael) pcr) w2
          (sym (
              new-some hex hex_laws sha attester w1 write' alg pcr content file refl
              ∙ reopen_behind hex sha attester w1 alg pcr content old aael parsed got1 bad)
            ∙ h) in
      let (moved, file2) =
        register_extended hex sha attester w1 w2 (unfinished_digest hex sha attester alg aael) pcr
          ext in
      (
        old,
        digest sha alg (old ++ digest sha alg (first_of lines (print_entry entry))),
        content,
        aael,
        r.register,
        file2 ∙ file,
        parsed,
        refl,
        laws.extended w1.tee w2.tee pcr (unfinished_digest hex sha attester alg aael) old moved got1
            ∙ ap (λ d. some (digest sha alg (old ++ d)))
                (unfinished_first hex sha attester alg r.init_state lines (print_entry entry)),
        ap (λ v. digest sha alg (old ++ digest sha alg (first_of lines (print_entry entry))) =ₜ v)
            (replayed-snoc hex sha attester alg r.init_state lines (print_entry entry)),
      )
