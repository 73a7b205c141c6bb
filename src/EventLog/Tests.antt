-- ===== src/EventLog/Tests.antt =====
-- A platform with one register, whose hash keeps what it hashes, and the logs of small histories.
use coco_guest_components.Common.{
  ℕ, zero, suc, ◌+◌, ◌≡◌, refl, ◌≢◌, ap, subst, true, false, Option, none, some, List, [], ◌∷◌,
  ◌++◌, length, length-append, leb, All, ok, err, arith, if◌then◌else◌, ◌==◌,
}
use coco_guest_components.Text.{Text, IsFree, bytes, contains, split, split_once, ◌=ₜ◌}
use coco_guest_components.Text.Laws.{contains-eq-false_iff}
use coco_guest_components.External.Concrete.{hex, hex_laws, replicate}
use coco_guest_components.External.Hex.{IsByte}
use coco_guest_components.External.Tee.{Sha2, Attester, AttesterLaws}
use coco_guest_components.EventLog.Lines.{
  lines, strip_cr, trim_end, split_ascii_whitespace, words_from, is_ascii_whitespace,
}
use coco_guest_components.EventLog.Algorithm.{sha256, digest, clean, algorithm_from_str}
use coco_guest_components.EventLog.Entry.{
  extend_failed, content_try_from, LogEntry, event, print_entry, digest_with, pad_zeros,
}
use coco_guest_components.EventLog.Replay.{
  AaEventlog, from_str, integrity_check, accumulate_hash, accumulate_events, extend_state,
}
use coco_guest_components.EventLog.Log.{
  done, append, World, EventLog, extend_register, extend_entry, init_entry, extend_init_entry, new,
  reopen, unfinished_digest, extend_measurement,
}
use coco_guest_components.EventLog.Log.Parse.{IsLogLine}
use coco_guest_components.EventLog.Log.Laws.{fresh}
use coco_guest_components.EventLog.Log.Reached.{
  Reached, created, measured, Reached-checks, Reached-Replays,
}
use coco_guest_components.EventLog.Log.Recovery.{new_after_crash}

-- A hash that gives bytes.
abbrev flat : ℕ → ℕ
flat x = if x == 0 then 1 else 2

abbrev hashed : List ℕ → List ℕ
hashed [] = 7 ∷ []
hashed (x ∷ xs) = flat x ∷ hashed xs

hashed-IsByte : (xs : List ℕ) → All IsByte (hashed xs)
hashed-IsByte [] = (omega arith, tt)
hashed-IsByte (x ∷ xs) = (ground arith, hashed-IsByte xs)

abbrev sha : Sha2
sha = record { sha256 = hashed; sha384 = hashed; sha512 = hashed }

length-hashed : (xs : List ℕ) → length (hashed xs) ≡ length xs + 1
length-hashed [] = omega arith
length-hashed (x ∷ xs) = omega (arith, length-hashed xs)

hashed_moves : (s d : List ℕ) → hashed (s ++ d) ≢ s
hashed_moves s d h = absurd (omega (arith, ap length h, length-hashed (s ++ d), length-append s d))

-- A platform that refuses long digests.
pub record Platform : Type 0 where
  pub register : List ℕ
  pub register-IsByte : All IsByte register

abbrev extend : Platform → List ℕ → Option Platform
extend p d =
    if leb 90 (length d)
    then none
    else some (record {
      register = hashed (p.register ++ d);
      register-IsByte = hashed-IsByte (p.register ++ d);
    })

abbrev attester : Attester
attester = record {
  State = Platform;
  get_runtime_measurement = λ p pcr. some p.register;
  extend_runtime_measurement = λ p d pcr. extend p d;
}

extend_lem :
    (p p' : Platform) (d r : List ℕ)
    → extend p d ≡ some p'
    → ◌≡◌ {A = Option (List ℕ)} (some p.register) (some r)
    → ◌≡◌ {A = Option (List ℕ)} (some p'.register) (some (hashed (r ++ d)))
extend_lem p p' d r h e = ground (arith, h, e)

bytes_lem :
    (p : Platform) (r : List ℕ)
    → ◌≡◌ {A = Option (List ℕ)} (some p.register) (some r)
    → All IsByte r
bytes_lem p r h = let same : p.register ≡ r = cc in subst (All IsByte) same p.register-IsByte

attester_laws : AttesterLaws attester (digest sha sha256)
unfolding digest
attester_laws = record {
  register_bytes = λ p pcr r h. bytes_lem p r h;
  extended = λ p p' pcr d r h e. extend_lem p p' d r h e;
}

abbrev zeros : List ℕ
zeros = replicate 32 0

zeros_lem : (n : ℕ) → All IsByte (replicate n 0)
zeros_lem zero = tt
zeros_lem (suc n) = (omega arith, zeros_lem n)

abbrev booted : World hex sha attester
booted = record { file = none; tee = record { register = zeros; register-IsByte = zeros_lem 32 } }

abbrev log : EventLog hex sha attester
log = fresh hex sha attester sha256 17

abbrev started : World hex sha attester
started = (new hex sha attester booted done sha256 17).0

started_lem : new hex sha attester booted done sha256 17 ≡ (started, ok log)
unfolding new extend_init_entry extend_entry append extend_register digest_with digest print_entry
    init_entry pad_zeros
started_lem = refl

started-Reached : Reached hex hex_laws sha attester sha256 17 started []
started-Reached = created booted started done log zeros refl refl (omega arith) started_lem

abbrev ran : World hex sha attester
ran =
    (extend_measurement hex sha attester (some log) started done 0 (bytes "a") (bytes "b")
      (bytes "c") (some 17)).0

ran_lem :
    extend_measurement hex sha attester
      (some log)
      started
      done
      0
      (bytes "a")
      (bytes "b")
      (bytes "c")
      (some 17)
    ≡ (ran, ok tt)
unfolding extend_measurement new extend_init_entry extend_entry append extend_register
    content_try_from contains digest_with digest print_entry
ran_lem = refl

line-IsFree : (l : Text) → contains 10 l ≡ false → IsFree 10 l
line-IsFree l h = (contains-eq-false_iff 10 l).0 h

abc-IsLogLine : IsLogLine (bytes "a b c")
unfolding contains strip_cr trim_end
abc-IsLogLine = (line-IsFree (bytes "a b c") refl, refl, refl)

ran-Reached : Reached hex hex_laws sha attester sha256 17 ran (bytes "a b c" ∷ [])
ran-Reached =
    measured started ran [] done 0 (bytes "a") (bytes "b") (bytes "c") started-Reached abc-IsLogLine
      ran_lem

Reached-checks_example :
    (content : Text) × (rtmr : List ℕ) × (aael : AaEventlog) × (ran.file ≡ some content)
    × (some ran.tee.register ≡ some rtmr)
    × (from_str hex content ≡ ok aael)
    × (aael.events ≡ bytes "a b c" ∷ [])
    × (integrity_check hex sha aael rtmr ≡ true)
Reached-checks_example =
    Reached-checks hex hex_laws sha attester sha256 17 ran (bytes "a b c" ∷ []) attester_laws
      ran-Reached

-- A line too long for this platform.
abbrev long_entry : LogEntry
long_entry = event (bytes "x") (bytes "y") (record { text = replicate 90 b'z' })

abbrev crashed : World hex sha attester
crashed = (extend_entry hex sha attester log ran done long_entry 17).0

crashed_lem :
    extend_entry hex sha attester log ran done long_entry 17 ≡ (crashed, err extend_failed)
unfolding extend_measurement new extend_init_entry extend_entry append extend_register
    content_try_from contains digest_with digest print_entry init_entry pad_zeros
crashed_lem = refl

long-IsLogLine : IsLogLine (print_entry long_entry)
unfolding contains strip_cr trim_end print_entry
long-IsLogLine = (line-IsFree (print_entry long_entry) refl, refl, refl)

long_moves : (s : List ℕ) → digest sha sha256 (s ++ digest sha sha256 (print_entry long_entry)) ≢ s
unfolding digest
long_moves s = hashed_moves s (hashed (print_entry long_entry))

abbrev restarted : World hex sha attester
restarted = (new hex sha attester crashed done sha256 17).0

restarted_lem : new hex sha attester crashed done sha256 17 ≡ (restarted, ok log)
unfolding extend_measurement new reopen extend_init_entry extend_entry append extend_register
    content_try_from contains digest_with digest print_entry init_entry pad_zeros from_str lines
    split strip_cr split_ascii_whitespace words_from is_ascii_whitespace split_once
    algorithm_from_str clean ◌=ₜ◌ trim_end integrity_check accumulate_hash accumulate_events
    extend_state unfinished_digest
restarted_lem = refl

-- The register has the first line's digest twice, and the check fails.
new_after_crash_example :
    (old rtmr : List ℕ) × (content : Text) × (aael : AaEventlog) × (some ran.tee.register
      ≡ some old)
    × (restarted.file ≡ some content)
    × (from_str hex content ≡ ok aael)
    × (aael.events ≡ bytes "a b c" ∷ print_entry long_entry ∷ [])
    × (some restarted.tee.register ≡ some rtmr)
    × (integrity_check hex sha aael rtmr
        ≡ digest sha sha256 (old ++ digest sha sha256 (bytes "a b c"))
          =ₜ digest sha sha256 (old ++ digest sha sha256 (print_entry long_entry)))
new_after_crash_example =
    new_after_crash hex hex_laws sha attester sha256 17 ran crashed restarted (bytes "a b c" ∷ [])
      done done long_entry log attester_laws long_moves
      (Reached-Replays hex hex_laws sha attester sha256 17 ran (bytes "a b c" ∷ []) attester_laws
        ran-Reached)
      long-IsLogLine crashed_lem restarted_lem
