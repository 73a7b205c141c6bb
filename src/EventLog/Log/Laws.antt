-- ===== src/EventLog/Log/Laws.antt =====
-- The log file beside the register, after each operation of the log.
use coco_guest_components.Common.{
  ℕ, ◌-◌, ◌*◌, ◌≤◌, ◌≡◌, refl, sym, ap, ◌∙◌, true, none, some, List, [], ◌∷◌, ◌++◌, All, length,
  get_or, Checked, ok, err, All-append, arith,
}
use coco_guest_components.Text.{Text}
use coco_guest_components.Text.Laws.{text_eq_refl}
use coco_guest_components.External.Hex.{Hex, HexLaws, IsByte}
use coco_guest_components.External.Concrete.{replicate}
use coco_guest_components.External.Tee.{Sha2, Attester, AttesterLaws}
use coco_guest_components.EventLog.Algorithm.{HashAlgorithm, digest_len, digest}
use coco_guest_components.EventLog.Entry.{LogError, LogEntry, print_entry, digest_with, pad_zeros}
use coco_guest_components.EventLog.Replay.{
  AaEventlog, from_str, extend_state, accumulate_events, accumulate_hash, integrity_check,
}
use coco_guest_components.EventLog.Log.{
  Write, append, World, EventLog, log_of, extend_register, extend_entry, init_entry,
  extend_init_entry, with_init, new,
}
use coco_guest_components.EventLog.Log.Parse.{
  IsLogLine, whole_log, init_line, log_text-snoc, parse_log,
}

module _ (hex : Hex) (sha : Sha2) (attester : Attester) where
  open attester use {get_runtime_measurement, extend_runtime_measurement}

  -- The object of a log that can be written.
  abbrev pub fresh : HashAlgorithm → ℕ → EventLog hex sha attester
  fresh alg pcr = record { writable = true; alg = alg; pcr = pcr }

  -- The file holds the INIT line of some bytes and these events, and the register has the value of
  -- its replay.
  pub record Replays (w : World hex sha attester) (alg : HashAlgorithm) (pcr : ℕ)
      (events : List Text) : Type 0 where
    pub init_state : List ℕ
    pub init_state-IsByte : All IsByte init_state
    pub events-IsLogLine : All IsLogLine events
    pub text : w.file ≡ some (whole_log hex alg init_state events)
    pub register :
        get_runtime_measurement w.tee pcr
        ≡ some (
            accumulate_hash hex sha
              (record { hash_algorithm = alg; init_state = init_state; events = events }))

  pub accumulate-snoc :
      (alg : HashAlgorithm) (state : List ℕ) (events : List Text) (e : Text)
      → accumulate_events hex sha alg state (events ++ e ∷ [])
        ≡ extend_state hex sha alg (accumulate_events hex sha alg state events) e
  unfolding accumulate_events
  accumulate-snoc alg state [] e = refl
  accumulate-snoc alg state (x ∷ events) e =
      accumulate-snoc alg (extend_state hex sha alg state x) events e

  -- An entry that was extended stands in the file, and its digest in the register.
  pub extended_entry :
      (log : EventLog hex sha attester) (w w' : World hex sha attester) (write : Write)
      (entry : LogEntry) (pcr : ℕ)
      → extend_entry hex sha attester log w write entry pcr ≡ (w', ok tt)
      → (w'.file ≡ some (log_of hex sha attester w ++ (print_entry entry ++ 10 ∷ [])))
        × (extend_runtime_measurement w.tee (digest_with sha entry log.alg) pcr ≡ some w'.tee)
  unfolding extend_entry append extend_register
  extended_entry log w w' write entry pcr h = ground (arith, h)

module _ (hex : Hex) (hex_laws : HexLaws hex) (sha : Sha2) (attester : Attester) where
  open attester use {get_runtime_measurement, extend_runtime_measurement}

  abbrev pub replayed : HashAlgorithm → List ℕ → List Text → List ℕ
  replayed alg init_state events =
      accumulate_hash hex sha
        (record { hash_algorithm = alg; init_state = init_state; events = events })

  -- A log that replays is read back, and passes the check against the register.
  pub Replays-check :
      (w : World hex sha attester) (alg : HashAlgorithm) (pcr : ℕ) (events : List Text)
      → Replays hex sha attester w alg pcr events
      → (content : Text) × (rtmr : List ℕ) × (aael : AaEventlog) × (w.file ≡ some content)
        × (get_runtime_measurement w.tee pcr ≡ some rtmr)
        × (from_str hex content ≡ ok aael)
        × (aael.events ≡ events)
        × (integrity_check hex sha aael rtmr ≡ true)
  unfolding integrity_check
  Replays-check w alg pcr events r =
      let aael : AaEventlog = record {
        hash_algorithm = alg;
        init_state = r.init_state;
        events = events;
      } in
      (
        whole_log hex alg r.init_state events,
        accumulate_hash hex sha aael,
        aael,
        r.text,
        r.register,
        parse_log hex hex_laws alg r.init_state events r.init_state-IsByte r.events-IsLogLine,
        refl,
        text_eq_refl (accumulate_hash hex sha aael),
      )

  -- One more event.
  pub Replays-extend :
      (log : EventLog hex sha attester) (w w' : World hex sha attester) (write : Write)
      (entry : LogEntry) (events : List Text)
      → AttesterLaws attester (digest sha log.alg)
      → Replays hex sha attester w log.alg log.pcr events
      → IsLogLine (print_entry entry)
      → extend_entry hex sha attester log w write entry log.pcr ≡ (w', ok tt)
      → Replays hex sha attester w' log.alg log.pcr (events ++ print_entry entry ∷ [])
  unfolding accumulate_hash digest_with extend_state
  Replays-extend log w w' write entry events laws r line h =
      let (file, ext) = extended_entry hex sha attester log w w' write entry log.pcr h in
      record {
        init_state = r.init_state;
        init_state-IsByte = r.init_state-IsByte;
        events-IsLogLine =
            All-append IsLogLine events (print_entry entry ∷ []) r.events-IsLogLine (line, tt);
        text =
            file
            ∙ ap (λ f. some (get_or [] f ++ (print_entry entry ++ 10 ∷ []))) r.text
            ∙ ap some (
                sym (
                  log_text-snoc (init_line log.alg (hex.encode r.init_state) ∷ events)
                    (print_entry entry)));
        register =
            laws.extended w.tee w'.tee log.pcr (digest_with sha entry log.alg)
              (replayed log.alg r.init_state events) ext r.register
            ∙ ap some (
                sym (
                  accumulate-snoc hex sha attester log.alg
                    (extend_state hex sha log.alg r.init_state
                      (init_line log.alg (hex.encode r.init_state)))
                    events (print_entry entry)));
      }

  pub with_init-eq-ok :
      (log log' : EventLog hex sha attester) (p : World hex sha attester × Checked LogError)
      (w' : World hex sha attester)
      → with_init hex sha attester log p ≡ (w', ok log')
      → (p ≡ (w', ok tt)) × (log' ≡ log)
  with_init-eq-ok log log' (w, ok _) w' h = ground (arith, h)
  with_init-eq-ok log log' (w, err e) w' h = ground (arith, h)

  abbrev pub emptied : World hex sha attester → World hex sha attester
  emptied w = record w { file = some [] }

  new-none :
      (w : World hex sha attester) (write : Write) (alg : HashAlgorithm) (pcr : ℕ)
      → w.file ≡ none
      → new hex sha attester w write alg pcr
        ≡ with_init hex sha attester
            (fresh hex sha attester alg pcr)
            (extend_init_entry hex sha attester (fresh hex sha attester alg pcr) (emptied w) write)
  unfolding new
  new-none w write alg pcr none_yet = ground (arith, none_yet)

  pub init_lem :
      (log : EventLog hex sha attester) (w : World hex sha attester) (write : Write) (r : List ℕ)
      → get_runtime_measurement w.tee log.pcr ≡ some r
      → extend_init_entry hex sha attester log w write
        ≡ extend_entry hex sha attester log w write (init_entry hex sha attester log.alg r) log.pcr
  unfolding extend_init_entry
  init_lem log w write r got = ground (arith, got)

  -- A register of at least half the digest's size is not padded.
  no_padding :
      (alg : HashAlgorithm) (r : List ℕ)
      → digest_len alg ≤ 2 * length r
      → print_entry (init_entry hex sha attester alg r) ≡ init_line alg (hex.encode r)
  unfolding print_entry init_entry pad_zeros
  no_padding alg r h =
      let nothing : digest_len alg - length (hex.encode r) ≡ 0 =
        rw (hex_laws.length-encode r) (omega (arith, h)) in
      ap (λ n. init_line alg (replicate n b'0' ++ hex.encode r)) nothing

  -- A new log.
  pub Replays-new :
      (w w' : World hex sha attester) (write : Write) (alg : HashAlgorithm) (pcr : ℕ)
      (log : EventLog hex sha attester) (r : List ℕ)
      → AttesterLaws attester (digest sha alg)
      → w.file ≡ none
      → get_runtime_measurement w.tee pcr ≡ some r
      → digest_len alg ≤ 2 * length r
      → new hex sha attester w write alg pcr ≡ (w', ok log)
      → (log ≡ fresh hex sha attester alg pcr) × Replays hex sha attester w' alg pcr []
  unfolding accumulate_hash accumulate_events extend_state digest_with
  Replays-new w w' write alg pcr log r laws none_yet got long h =
      let entry = init_entry hex sha attester alg r in
      let (ran, same) =
        with_init-eq-ok (fresh hex sha attester alg pcr) log
          (extend_entry hex sha attester (fresh hex sha attester alg pcr) (emptied w) write entry
            pcr)
          w'
          (sym (
              new-none w write alg pcr none_yet
              ∙ ap (with_init hex sha attester (fresh hex sha attester alg pcr))
                  (init_lem (fresh hex sha attester alg pcr) (emptied w) write r got))
            ∙ h) in
      let (file, ext) =
        extended_entry hex sha attester (fresh hex sha attester alg pcr) (emptied w) w' write entry
          pcr ran in
      (
        same,
        record {
          init_state = r;
          init_state-IsByte = laws.register_bytes w.tee pcr r got;
          events-IsLogLine = tt;
          text = file ∙ ap (λ l. some (l ++ 10 ∷ [])) (no_padding alg r long);
          register =
              laws.extended w.tee w'.tee pcr (digest_with sha entry alg) r ext got
              ∙ ap (λ l. some (digest sha alg (r ++ digest sha alg l))) (no_padding alg r long);
        },
      )
