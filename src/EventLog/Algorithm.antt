-- ===== src/EventLog/Algorithm.antt =====
-- attestation-agent/deps/crypto/src/algorithms.rs: the hash algorithms of the log.
use coco_guest_components.Common.{
  ℕ, ◌&&◌, Option, none, some, List, [], ◌∷◌, map, ◌+◌, ◌==◌, leb, if◌then◌else◌,
}
use coco_guest_components.Text.{Text, bytes, ◌=ₜ◌}
use coco_guest_components.External.Tee.{Sha2}

pub data HashAlgorithm : Type 0 where
  sha256 sha384 sha512 : HashAlgorithm

-- `as_ref` and `Display`, which `strum` derives
abbrev pub name_of : HashAlgorithm → Text
name_of sha256 = bytes "sha256"
name_of sha384 = bytes "sha384"
name_of sha512 = bytes "sha512"

abbrev pub digest_len : HashAlgorithm → ℕ
digest_len sha256 = 32
digest_len sha384 = 48
digest_len sha512 = 64

unfoldable pub digest : Sha2 → HashAlgorithm → List ℕ → List ℕ
digest sha sha256 material = sha.sha256 material
digest sha sha384 material = sha.sha384 material
digest sha sha512 material = sha.sha512 material

abbrev pub lower : ℕ → ℕ
lower x = if leb b'A' x && leb x b'Z' then x + 32 else x

-- `to_lowercase()`, with the remark on `clean`
unfoldable pub to_lowercase : Text → Text
to_lowercase t = map lower t

-- `replace('-', "").to_lowercase()`. No character outside ASCII has a lower case that stands in the
-- three names.
unfoldable pub clean : Text → Text
clean [] = []
clean (x ∷ t) =
    let rest = clean t in
    if x == b'-' then rest else (if leb b'A' x && leb x b'Z' then x + 32 else x) ∷ rest

-- `ParseHashAlgorithmError` is the only error.
unfoldable pub algorithm_from_str : Text → Option HashAlgorithm
algorithm_from_str s =
    if clean s =ₜ bytes "sha256"
    then some sha256
    else if clean s =ₜ bytes "sha384"
    then some sha384
    else if clean s =ₜ bytes "sha512"
    then some sha512
    else none
