-- ===== src/Ocicrypt/Config/Provider.antt =====
-- ocicrypt-rs/src/config.rs: the parameters of key providers. The texts are UTF-8, so that no
-- conversion of the builders loses anything.
use coco_guest_components.Common.{
  ℕ, zero, suc, ◌+◌, Bool, ◌&&◌, Option, none, some, List, [], ◌∷◌, ◌++◌, ltb, leb, ◌==◌,
  if◌then◌else◌, Checked, ok, err,
}
use coco_guest_components.Text.{Text, bytes}
use coco_guest_components.Ocicrypt.KeyWrap.{Params}
use coco_guest_components.Ocicrypt.Config.{ConfigError, update_param}

-- The position of a byte, `find`.
unfoldable pub find : ℕ → Text → Option ℕ
find c [] = none
find c (x ∷ t) =
    let rest = find c t in
    if x == c then some 0 else elim rest [ none ↦ none | some i ↦ some (suc i) ]

-- A byte that does not begin a character.
abbrev pub continues : ℕ → Bool
continues b = leb 128 b && ltb b 192

unfoldable pub rest_of_char : Text → Text
rest_of_char [] = []
rest_of_char (x ∷ t) = let rest = rest_of_char t in if continues x then x ∷ rest else []

unfoldable pub past_char : Text → Text
past_char [] = []
past_char (x ∷ t) = let past = past_char t in if continues x then past else x ∷ t

-- `chars().take(n)` and `chars().skip(n)`
unfoldable pub take_chars : ℕ → Text → Text
take_chars zero t = []
take_chars (suc n) [] = []
take_chars (suc n) (x ∷ t) = x ∷ (rest_of_char t ++ take_chars n (past_char t))

unfoldable pub skip_chars : ℕ → Text → Text
skip_chars zero t = t
skip_chars (suc n) [] = []
skip_chars (suc n) (x ∷ t) = skip_chars n (past_char t)

-- The parameter of one key provider, cut at so many characters as there are bytes before the colon.
unfoldable pub provider_param : Text → Text × List ℕ
provider_param val = elim (find b':' val) [
  | none ↦ (val, bytes "Enabled")
  | some index ↦ (take_chars index val, skip_chars (index + 1) val)
]

-- `decrypt_with_key_provider` and `encrypt_with_key_provider`
unfoldable pub with_key_provider : List Text → Params → Params × Checked ConfigError
with_key_provider [] param = (param, ok tt)
with_key_provider (val ∷ rest) param =
    let (param', result) =
      update_param (provider_param val).0 ((provider_param val).1 ∷ []) param in
    let more = with_key_provider rest param' in
    elim result [ err e ↦ (param', err e) | ok _ ↦ more ]
