-- ===== src/Ocicrypt/KeyWrap.antt =====
-- ocicrypt-rs/src/keywrap/mod.rs and lib.rs: the key wrappers, the configuration that they read and
-- their registry. A wrapper is the record of the trait's methods that the encryption of layers calls.
use coco_guest_components.Common.{ℕ, Bool, Option, none, some, List, [], ◌∷◌}
use coco_guest_components.Text.{Text}
use coco_guest_components.Text.Map.{lookup, insert}

-- `HashMap<String, Vec<Vec<u8>>>`
abbrev pub Params : Type 0
Params = List (Text × List (List ℕ))

pub record DecryptConfig : Type 0 where
  pub param : Params

pub record EncryptConfig : Type 0 where
  pub param : Params
  pub decrypt_config : Option DecryptConfig

-- `impl KeyWrapper`; `none` is an error of the wrapper.
pub record KeyWrapper : Type 0 where
  pub wrap_keys : EncryptConfig → List ℕ → Option (List ℕ)
  pub unwrap_keys : DecryptConfig → List ℕ → Option (List ℕ)
  pub annotation_id : Text
  pub probe : Params → Bool
  pub private_keys : Params → Option (List (List ℕ))

-- `KEY_WRAPPERS`, in the order in which the map iterates
abbrev pub KeyWrappers : Type 0
KeyWrappers = List (Text × KeyWrapper)

-- `KEY_WRAPPERS_ANNOTATIONS`: the scheme of each annotation
abbrev insert_all : KeyWrappers → List (Text × Text) → List (Text × Text)
insert_all [] m = m
insert_all ((scheme, w) ∷ ws) m = insert_all ws (insert w.annotation_id scheme m)

unfoldable pub key_wrappers_annotations : KeyWrappers → List (Text × Text)
key_wrappers_annotations ws = insert_all ws []

unfoldable pub get_key_wrapper : KeyWrappers → Text → Option KeyWrapper
get_key_wrapper ws scheme = lookup scheme ws

-- `get_wrapped_keys_map`
wrapped_keys_from :
    List (Text × Text) → List (Text × Text) → List (Text × Text) → List (Text × Text)
wrapped_keys_from [] annotations m = m
wrapped_keys_from ((annotations_id, scheme) ∷ rest) annotations m =
    wrapped_keys_from rest annotations
      (elim (lookup annotations_id annotations) [ none ↦ m | some value ↦ insert scheme value m ])

unfoldable pub get_wrapped_keys_map : KeyWrappers → List (Text × Text) → List (Text × Text)
unfolding wrapped_keys_from
get_wrapped_keys_map ws annotations = wrapped_keys_from (key_wrappers_annotations ws) annotations []
