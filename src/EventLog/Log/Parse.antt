-- ===== src/EventLog/Log/Parse.antt =====
-- What is read back from a log of whole lines.
use coco_guest_components.Common.{
  ℕ, ◌≡◌, refl, sym, ap, ◌∙◌, ◌≢◌, false, some, List, [], ◌∷◌, ◌++◌, append_assoc, append-nil, map,
  All, All-append, All-map, is_some, ok, arith,
}
use coco_guest_components.Text.{Text, IsFree, bytes, contains, split, split_once, ◌=ₜ◌}
use coco_guest_components.Text.Laws.{contains-eq-false_iff}
use coco_guest_components.Text.Split.{split-append}
use coco_guest_components.External.Hex.{Hex, HexLaws, IsByte, IsHexDigit}
use coco_guest_components.EventLog.Lines.{
  lines, strip_lines, strip_cr, trim_end, is_ascii_whitespace, add_word, words_from,
  split_ascii_whitespace,
}
use coco_guest_components.EventLog.Algorithm.{
  HashAlgorithm, sha256, sha384, sha512, name_of, clean, algorithm_from_str,
}
use coco_guest_components.EventLog.Replay.{from_str}

-- A line that reading gives back as it was written: no newline in it, and neither a carriage return
-- nor whitespace at its end.
abbrev pub IsLogLine : Text → Type 0
IsLogLine l = IsFree 10 l × (strip_cr l ≡ l) × (trim_end l ≡ l)

abbrev pub log_text : List Text → Text
log_text [] = []
log_text (l ∷ ls) = l ++ 10 ∷ log_text ls

pub log_text-snoc :
    (ls : List Text) (l : Text) → log_text (ls ++ l ∷ []) ≡ log_text ls ++ (l ++ 10 ∷ [])
log_text-snoc [] l = refl
log_text-snoc (m ∷ ls) l =
    ap (λ t. m ++ 10 ∷ t) (log_text-snoc ls l)
    ∙ sym (append_assoc m (10 ∷ log_text ls) (l ++ 10 ∷ []))

split-log_text : (ls : List Text) → All (IsFree 10) ls → split 10 (log_text ls) ≡ ls ++ [] ∷ []
unfolding split
split-log_text [] h = refl
split-log_text (l ∷ ls) (h, hs) =
    split-append 10 l (log_text ls) h ∙ ap (λ r. l ∷ r) (split-log_text ls hs)

strip_lines_whole :
    (ls : List Text) → All (λ l. strip_cr l ≡ l) ls → strip_lines (ls ++ [] ∷ []) ≡ ls
strip_lines_whole [] h = refl
strip_lines_whole (l ∷ []) (h, _) = rw h refl
strip_lines_whole (l ∷ m ∷ ls) (h, hs) = rw (h, strip_lines_whole (m ∷ ls) hs) refl

lines-log_text :
    (ls : List Text) → All (IsFree 10) ls → All (λ l. strip_cr l ≡ l) ls → lines (log_text ls) ≡ ls
unfolding lines
lines-log_text ls h hs = ap strip_lines (split-log_text ls h) ∙ strip_lines_whole ls hs

-- Text that no whitespace breaks up.
abbrev IsWord : Text → Type 0
IsWord = All (λ c. is_ascii_whitespace c ≡ false)

words_from_word : (w t : Text) → IsWord t → words_from w t ≡ add_word (w ++ t) []
unfolding words_from
words_from_word w [] h = rw (append-nil w) refl
words_from_word w (x ∷ t) (h, hs) =
    rw (h, words_from) (words_from_word (w ++ x ∷ []) t hs)
    ∙ ap (λ r. add_word r []) (append_assoc w (x ∷ []) t)

strip_cr_word : (t : Text) → IsWord t → strip_cr t ≡ t
unfolding strip_cr is_ascii_whitespace
strip_cr_word [] h = refl
strip_cr_word (x ∷ []) (h, _) = ground (arith, h)
strip_cr_word (x ∷ y ∷ t) (h, hs) = ap (λ r. x ∷ r) (strip_cr_word (y ∷ t) hs)

word-IsFree : (t : Text) → IsWord t → IsFree 10 t
unfolding is_ascii_whitespace
word-IsFree [] h = tt
word-IsFree (x ∷ t) (h, hs) = (λ e. absurd (ground (arith, h, e)), word-IsFree t hs)

digits-IsWord : (t : Text) → All IsHexDigit t → IsWord t
unfolding is_ascii_whitespace
digits-IsWord [] h = tt
digits-IsWord (x ∷ t) (h, hs) = (ground (arith, h), digits-IsWord t hs)

-- The value of the INIT line, and the line.
abbrev pub init_value : HashAlgorithm → Text → Text
init_value alg state = name_of alg ++ b'/' ∷ state

abbrev pub init_line : HashAlgorithm → Text → Text
init_line alg state = bytes "INIT " ++ init_value alg state

init_value-IsWord :
    (alg : HashAlgorithm) (state : Text) → IsWord state → IsWord (init_value alg state)
unfolding is_ascii_whitespace
init_value-IsWord sha256 state h = (refl, (refl, (refl, (refl, (refl, (refl, (refl, h)))))))
init_value-IsWord sha384 state h = (refl, (refl, (refl, (refl, (refl, (refl, (refl, h)))))))
init_value-IsWord sha512 state h = (refl, (refl, (refl, (refl, (refl, (refl, (refl, h)))))))

init_line_strip :
    (alg : HashAlgorithm) (state : Text)
    → IsWord state
    → strip_cr (init_line alg state) ≡ init_line alg state
unfolding strip_cr is_ascii_whitespace
init_line_strip sha256 state h =
    ap (λ r. bytes "INIT sha256" ++ r) (strip_cr_word (b'/' ∷ state) (refl, h))
init_line_strip sha384 state h =
    ap (λ r. bytes "INIT sha384" ++ r) (strip_cr_word (b'/' ∷ state) (refl, h))
init_line_strip sha512 state h =
    ap (λ r. bytes "INIT sha512" ++ r) (strip_cr_word (b'/' ∷ state) (refl, h))

init_keyword : contains 10 (bytes "INIT ") ≡ false
unfolding contains
init_keyword = refl

init_line-IsFree :
    (alg : HashAlgorithm) (state : Text) → IsWord state → IsFree 10 (init_line alg state)
init_line-IsFree alg state h =
    All-append (λ x. x ≢ 10) (bytes "INIT ") (init_value alg state)
      ((contains-eq-false_iff 10 (bytes "INIT ")).0 init_keyword)
      (word-IsFree (init_value alg state) (init_value-IsWord alg state h))

init_line_words :
    (alg : HashAlgorithm) (state : Text)
    → IsWord state
    → split_ascii_whitespace (init_line alg state) ≡ bytes "INIT" ∷ init_value alg state ∷ []
unfolding split_ascii_whitespace words_from is_ascii_whitespace
init_line_words sha256 state h =
    ap (λ r. bytes "INIT" ∷ r)
      (words_from_word [] (init_value sha256 state) (init_value-IsWord sha256 state h))
init_line_words sha384 state h =
    ap (λ r. bytes "INIT" ∷ r)
      (words_from_word [] (init_value sha384 state) (init_value-IsWord sha384 state h))
init_line_words sha512 state h =
    ap (λ r. bytes "INIT" ∷ r)
      (words_from_word [] (init_value sha512 state) (init_value-IsWord sha512 state h))

init_line_split :
    (alg : HashAlgorithm) (state : Text)
    → split_once b'/' (init_value alg state) ≡ some (name_of alg, state)
unfolding split_once
init_line_split sha256 state = refl
init_line_split sha384 state = refl
init_line_split sha512 state = refl

algorithm_name : (alg : HashAlgorithm) → algorithm_from_str (name_of alg) ≡ some alg
unfolding algorithm_from_str clean ◌=ₜ◌
algorithm_name sha256 = refl
algorithm_name sha384 = refl
algorithm_name sha512 = refl

abbrev pub whole_log : Hex → HashAlgorithm → List ℕ → List Text → Text
whole_log hex alg init_state events = log_text (init_line alg (hex.encode init_state) ∷ events)

module _ (hex : Hex) (laws : HexLaws hex) where
  encode-IsWord : (bs : List ℕ) → All IsByte bs → IsWord (hex.encode bs)
  encode-IsWord bs h =
      digits-IsWord (hex.encode bs)
        ((laws.accepts (hex.encode bs)).0 (ap is_some (laws.decode-encode bs h))).1

  -- The lines of the log, and their ends.
  lines_of_log :
      (alg : HashAlgorithm) (init_state : List ℕ) (events : List Text)
      → All IsByte init_state
      → All IsLogLine events
      → lines (whole_log hex alg init_state events) ≡ init_line alg (hex.encode init_state) ∷ events
  lines_of_log alg init_state events hb he =
      let word = encode-IsWord init_state hb in
      let state = hex.encode init_state in
      lines-log_text (init_line alg state ∷ events)
        (init_line-IsFree alg state word, All-map (λ l h. h.0) events he)
        (init_line_strip alg state word, All-map (λ l h. h.1) events he)

  trimmed : (events : List Text) → All IsLogLine events → map trim_end events ≡ events
  trimmed [] h = refl
  trimmed (e ∷ events) ((_, _, t), hs) = rw (t, trimmed events hs) refl

  pub parse_log :
      (alg : HashAlgorithm) (init_state : List ℕ) (events : List Text)
      → All IsByte init_state
      → All IsLogLine events
      → from_str hex (whole_log hex alg init_state events)
        ≡ ok (record { hash_algorithm = alg; init_state = init_state; events = events })
  unfolding from_str ◌=ₜ◌
  parse_log alg init_state events hb he =
      rw
        (
          lines_of_log alg init_state events hb he,
          init_line_words alg (hex.encode init_state) (encode-IsWord init_state hb),
          init_line_split alg (hex.encode init_state),
          algorithm_name alg,
          laws.decode-encode init_state hb,
          trimmed events he,
        )
        refl
