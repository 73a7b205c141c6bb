-- ===== src/Ocicrypt/Setup/Layer.antt =====
-- A small layer, a key and a wrapper for it.
use coco_guest_components.Common.{
  ℕ, refl, ◌≢◌, ◌==◌, if◌then◌else◌, true, Option, none, some, List, [], ◌∷◌, arith,
}
use coco_guest_components.Text.{bytes}
use coco_guest_components.External.Concrete.{replicate}
use coco_guest_components.Ocicrypt.Cipher.Laws.{AreNonempty}
use coco_guest_components.Ocicrypt.KeyWrap.{DecryptConfig, EncryptConfig, KeyWrapper}
use coco_guest_components.Ocicrypt.Encryption.{pubopts_key}
use coco_guest_components.Ocicrypt.Encryption.Single.{Unwraps}

-- A wrapper that puts one byte in front of the options.
abbrev pub unwrap_seven : List ℕ → Option (List ℕ)
unwrap_seven (k ∷ opts_data) = if k == 7 then some opts_data else none
unwrap_seven [] = none

abbrev pub wrapper : KeyWrapper
wrapper = record {
  wrap_keys = λ ec opts_data. some (7 ∷ opts_data);
  unwrap_keys = λ dc k. unwrap_seven k;
  annotation_id = bytes "id";
  probe = λ p. true;
  private_keys = λ p. none;
}

abbrev pub dc : DecryptConfig
dc = record { param = [] }

abbrev pub ec : EncryptConfig
ec = record { param = []; decrypt_config = some dc }

pub cons-ne-nil : (x : ℕ) (xs : List ℕ) → x ∷ xs ≢ []
cons-ne-nil x xs h = absurd (ground (arith, h))

pub wrapper-Unwraps : Unwraps wrapper ec dc
wrapper-Unwraps = (refl, λ opts_data. (7 ∷ opts_data, refl, cons-ne-nil 7 opts_data, refl))

abbrev pub layer : List (List ℕ)
layer = (1 ∷ 2 ∷ []) ∷ (3 ∷ []) ∷ []

pub layer-AreNonempty : AreNonempty layer
layer-AreNonempty = (cons-ne-nil 1 (2 ∷ []), (cons-ne-nil 3 [], tt))

abbrev pub key : List ℕ
key = replicate 32 5

abbrev pub nonce : List ℕ
nonce = replicate 16 6

pub other_id : wrapper.annotation_id ≢ pubopts_key
other_id h = absurd (ground (arith, h))
