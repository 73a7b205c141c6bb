-- ===== src/External/Hex.antt =====
-- The crate `hex`. `decode` fails on an odd length and on any byte that is no hexadecimal digit.
use coco_guest_components.Common.{
  ℕ, ◌*◌, ◌%◌, ◌≤◌, ◌<◌, ◌≡◌, ◌↔◌, ◌⊎◌, true, Option, some, List, All, length, is_some,
}
use coco_guest_components.Text.{Text}

pub record Hex : Type 0 where
  pub encode : List ℕ → Text
  pub decode : Text → Option (List ℕ)

abbrev pub IsHexDigit : ℕ → Type 0
IsHexDigit c = ((b'0' ≤ c) × (c ≤ b'9')) ⊎ ((b'a' ≤ c) × (c ≤ b'f')) ⊎ ((b'A' ≤ c) × (c ≤ b'F'))

abbrev pub IsByte : ℕ → Type 0
IsByte b = b < 256

pub record HexLaws (hex : Hex) : Type 0 where
  pub accepts :
      (t : Text) → (is_some (hex.decode t) ≡ true) ↔ ((length t % 2 ≡ 0) × All IsHexDigit t)
  pub decode-encode : (bs : List ℕ) → All IsByte bs → hex.decode (hex.encode bs) ≡ some bs
  pub length-encode : (bs : List ℕ) → length (hex.encode bs) ≡ 2 * length bs
