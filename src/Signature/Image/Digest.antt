-- ===== src/Signature/Image/Digest.antt =====
-- image-rs/src/signature/image/digest.rs: `algorithm:value` with a hexadecimal value of the
-- algorithm's length.
pub mod Laws
use coco_guest_components.Common.{
  ℕ, ◌≡◌, Bool, Option, none, some, List, [], ◌∷◌, ◌++◌, ◌||◌, not, ◌==◌, if◌then◌else◌, is_some,
  length, Result, ok, err,
}
use coco_guest_components.Text.{Text, bytes, ◌=ₜ◌, is_empty, split}
use coco_guest_components.External.Hex.{Hex}

pub data Algorithm : Type 0 where
  sha256 sha384 sha512 : Algorithm

pub data ParseError : Type 0 where
  invalid_format invalid_length unsupported_algorithm : ParseError

pub record Digest : Type 0 where
  pub algorithm : Text
  pub value : Text

-- `Digest::default()`
abbrev pub empty_digest : Digest
empty_digest = record { algorithm = []; value = [] }

-- `is_empty`
unfoldable pub is_unset : Digest → Bool
is_unset d = is_empty d.algorithm || is_empty d.value

-- `Display`
unfoldable pub print : Digest → Text
print d = d.algorithm ++ b':' ∷ d.value

-- the `serialize` attribute of a variant
abbrev pub name_of : Algorithm → Text
name_of sha256 = bytes "sha256"
name_of sha384 = bytes "sha384"
name_of sha512 = bytes "sha512"

-- the `Length` attribute of a variant
abbrev pub expected_len : Algorithm → ℕ
expected_len sha256 = 64
expected_len sha384 = 96
expected_len sha512 = 128

-- `Algorithm::from_str`
algorithm_of : Text → Option Algorithm
algorithm_of s =
    if s =ₜ name_of sha256
    then some sha256
    else if s =ₜ name_of sha384
    then some sha384
    else if s =ₜ name_of sha512
    then some sha512
    else none

check_length : Text → Text → Option Algorithm → Result ParseError Digest
check_length algorithm value none = err unsupported_algorithm
check_length algorithm value (some a) =
    if length value == expected_len a
    then ok (record { algorithm = algorithm; value = value })
    else err invalid_length

check_parts : Hex → List Text → Result ParseError Digest
check_parts hex (algorithm ∷ value ∷ []) =
    if is_empty algorithm || is_empty value
    then err invalid_format
    else if not (is_some (hex.decode value))
    then err invalid_format
    else check_length algorithm value (algorithm_of algorithm)
check_parts hex _ = err invalid_format

-- `Digest::try_from(&str)`
unfoldable pub parse : Hex → Text → Result ParseError Digest
unfolding algorithm_of check_length check_parts
parse hex digest = check_parts hex (split b':' digest)
