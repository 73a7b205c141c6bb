-- ===== src/Ocicrypt/Wrap.antt =====
-- ocicrypt-rs/src/encryption.rs: the annotations of a layer, which hold its wrapped key.
use coco_guest_components.Common.{
  ℕ, Bool, true, false, not, ◌||◌, Option, none, some, List, [], ◌∷◌, ◌++◌, if◌then◌else◌, is_some,
  get_or, Result, ok, err, ensure, ok_or, ◌>>=◌, ◌>>◌,
}
use coco_guest_components.Text.{Text, bytes, is_empty, split, strip_prefix}
use coco_guest_components.Text.Map.{lookup, insert}
use coco_guest_components.External.Encoding.{Encoding}
use coco_guest_components.Ocicrypt.Options.{default_public}
use coco_guest_components.Ocicrypt.Cipher.{CipherError}
use coco_guest_components.Ocicrypt.KeyWrap.{
  DecryptConfig, EncryptConfig, KeyWrapper, KeyWrappers, key_wrappers_annotations, get_key_wrapper,
}

pub data LayerError : Type 0 where
  cipher : CipherError → LayerError
  wrapper_failed empty_wrapped_key empty_annotation bad_base64 no_suitable_key : LayerError
  wrapper_not_supported no_keys_wrapped no_encryptor : LayerError
  missing_private_key no_key_unwrapper no_decrypt_config bad_json : LayerError

-- `BTreeMap<String, String>`
abbrev pub Annotations : Type 0
Annotations = List (Text × Text)

abbrev pub pubopts_key : Text
pubopts_key = bytes "org.opencontainers.image.enc.pubopts"

-- `is_empty` of a map
abbrev pub has_none : Annotations → Bool
has_none [] = true
has_none (_ ∷ _) = false

abbrev pub provider_prefix : Text
provider_prefix = bytes "org.opencontainers.image.enc.keys.provider."

module _ (enc : Encoding) where
  open enc use {
    base64_encode, base64_decode, private_to_vec, private_from_slice, public_to_vec,
    public_from_slice,
  }

  -- `push(',')` and `push_str` on annotations that are not empty
  unfoldable pub append_annotation : Text → Text → Text
  append_annotation old new = if is_empty old then new else old ++ b',' ∷ new

  unfoldable pub pre_wrap_key : KeyWrapper → EncryptConfig → Text → List ℕ → Result LayerError Text
  pre_wrap_key w ec b64_annotations opts_data = do
    new_annotation ← ok_or (w.wrap_keys ec opts_data) wrapper_failed
    ensure (not (is_empty new_annotation)) empty_wrapped_key
    ok (append_annotation b64_annotations (base64_encode new_annotation))

  -- `for b64_annotation in b64_annotations.split(',')`
  unfoldable pub unwrap_first : KeyWrapper → DecryptConfig → List Text → Result LayerError (List ℕ)
  unwrap_first w dc [] = err no_suitable_key
  unwrap_first w dc (b64_annotation ∷ rest) =
      let later = unwrap_first w dc rest in
      elim (base64_decode b64_annotation) [
        | none ↦ err bad_base64
        | some annotation ↦ elim (w.unwrap_keys dc annotation) [
          | none ↦ later
          | some opts_data ↦ ok opts_data
        ]
      ]

  unfoldable pub pre_unwrap_key : KeyWrapper → DecryptConfig → Text → Result LayerError (List ℕ)
  pre_unwrap_key w dc b64_annotations = do
    ensure (not (is_empty b64_annotations)) empty_annotation
    unwrap_first w dc (split b',' b64_annotations)

  unfoldable pub get_layer_pub_opts : Annotations → Result LayerError (List ℕ)
  get_layer_pub_opts annotations = elim (lookup pubopts_key annotations) [
    | some pub_opts ↦ ok_or (base64_decode pub_opts) bad_base64
    | none ↦ ok (public_to_vec default_public)
  ]

  -- The first annotation of any key provider.
  unfoldable pub first_provider : Annotations → Option Text
  first_provider [] = none
  first_provider ((k, v) ∷ rest) =
      let later = first_provider rest in
      if is_some (strip_prefix provider_prefix k) then some v else later

  unfoldable pub get_layer_key_opts : Text → Annotations → Option Text
  get_layer_key_opts annotations_id annotations =
      if is_some (strip_prefix provider_prefix annotations_id)
      then first_provider annotations
      else lookup annotations_id annotations

  -- Every wrapper of `KEY_WRAPPERS_ANNOTATIONS`, whether a private key was given so far.
  unfoldable pub try_wrappers :
      KeyWrappers
      → DecryptConfig
      → Annotations
      → List (Text × Text)
      → Bool
      → Result LayerError (List ℕ)
  try_wrappers ws dc annotations [] true = err no_key_unwrapper
  try_wrappers ws dc annotations [] false = err missing_private_key
  try_wrappers ws dc annotations ((annotations_id, scheme) ∷ rest) priv_key_given =
      let skip = try_wrappers ws dc annotations rest priv_key_given in
      let given = λ (w : KeyWrapper). priv_key_given || is_some (w.private_keys dc.param) in
      let next = λ (w : KeyWrapper). try_wrappers ws dc annotations rest (given w) in
      elim (get_layer_key_opts annotations_id annotations) [
        | none ↦ skip
        | some b64_annotation ↦ do
          w ← ok_or (get_key_wrapper ws scheme) wrapper_not_supported
          if not (w.probe dc.param) then skip else do
            opts_data ← pre_unwrap_key w dc b64_annotation
            if is_empty opts_data then next w else ok opts_data
      ]

  unfoldable pub decrypt_layer_key_opts_data :
      KeyWrappers → DecryptConfig → Option Annotations → Result LayerError (List ℕ)
  decrypt_layer_key_opts_data ws dc annotations =
      try_wrappers ws dc (get_or [] annotations) (key_wrappers_annotations ws) false

  -- `for (annotations_id, scheme) in KEY_WRAPPERS_ANNOTATIONS.iter()` of `finalize_annotations`, with
  -- `keys_wrapped`
  unfoldable pub wrap_all :
      KeyWrappers
      → EncryptConfig
      → Annotations
      → List ℕ
      → List (Text × Text)
      → Annotations
      → Bool
      → Result LayerError (Annotations × Bool)
  wrap_all ws ec anno priv_opts [] new_annotations keys_wrapped = ok (new_annotations, keys_wrapped)
  wrap_all ws ec anno priv_opts ((annotations_id, scheme) ∷ rest) new_annotations keys_wrapped = do
    w ← ok_or (get_key_wrapper ws scheme) wrapper_not_supported
    b64_annotations ← pre_wrap_key w ec (get_or [] (lookup annotations_id anno)) priv_opts
    wrap_all ws ec anno priv_opts rest
        (if is_empty b64_annotations
          then new_annotations
          else insert annotations_id b64_annotations new_annotations)
        (not (is_empty b64_annotations) || keys_wrapped)

  -- Behind the loop: what was wrapped, with the public options beside it.
  unfoldable pub with_pubopts : List ℕ → Annotations × Bool → Result LayerError Annotations
  with_pubopts pub_opts (new_annotations, keys_wrapped) = do
    ensure keys_wrapped no_keys_wrapped
    ensure (not (has_none new_annotations)) no_encryptor
    ok (insert pubopts_key (base64_encode pub_opts) new_annotations)
