-- ===== src/Ocicrypt/Encryption/Single.antt =====
-- A registry with one key wrapper, and a wrapper that unwraps what it wraps.
use coco_guest_components.Common.{
  ℕ, ◌≡◌, refl, ◌≢◌, Bool, true, false, not, Bool-cases, inl, inr, some, List, [], ◌∷◌, is_some,
  if◌then◌else◌, ok, ◌||◌, arith,
}
use coco_guest_components.Text.{Text, ◌=ₜ◌, is_empty, strip_prefix}
use coco_guest_components.Text.Laws.{text_eq_refl, text_ne, is_empty-false}
use coco_guest_components.Text.Map.{lookup, insert}
use coco_guest_components.External.Encoding.{Encoding, EncodingLaws}
use coco_guest_components.Ocicrypt.KeyWrap.{
  DecryptConfig, EncryptConfig, KeyWrapper, KeyWrappers, key_wrappers_annotations, get_key_wrapper,
}
use coco_guest_components.Ocicrypt.Encryption.{
  Annotations, pubopts_key, provider_prefix, first_provider, get_layer_key_opts, try_wrappers,
  decrypt_layer_key_opts_data, get_layer_pub_opts, wrap_all, with_pubopts, pre_wrap_key,
  pre_unwrap_key,
}
use coco_guest_components.Ocicrypt.Encryption.Wrapping.{pre_wrap_key_first, pre_unwrap_key_first}

-- The wrapper takes every key, under the two configurations.
abbrev pub Unwraps : KeyWrapper → EncryptConfig → DecryptConfig → Type 0
Unwraps w ec dc =
    (w.probe dc.param ≡ true)
    × ((opts_data : List ℕ)
        → (k : List ℕ) × (w.wrap_keys ec opts_data ≡ some k)
          × (k ≢ [])
          × (w.unwrap_keys dc k ≡ some opts_data))

abbrev pub only : Text → KeyWrapper → KeyWrappers
only scheme w = (scheme, w) ∷ []

module _ (enc : Encoding) (laws : EncodingLaws enc) (scheme : Text) (w : KeyWrapper)
    (named : w.annotation_id ≢ pubopts_key) where
  open enc use {base64_encode, base64_decode, public_to_vec}
  open laws use {base64_decode-encode, base64-ne-nil}

  -- The annotations of an encrypted layer.
  abbrev pub sealed : List ℕ → List ℕ → Annotations
  sealed k pub_opts =
      (w.annotation_id, base64_encode k) ∷ (pubopts_key, base64_encode pub_opts) ∷ []

  pub annotations_of_only :
      key_wrappers_annotations (only scheme w) ≡ (w.annotation_id, scheme) ∷ []
  unfolding key_wrappers_annotations insert
  annotations_of_only = refl

  get_only : get_key_wrapper (only scheme w) scheme ≡ some w
  unfolding get_key_wrapper lookup
  get_only = rw (text_eq_refl scheme) refl

  different : w.annotation_id =ₜ pubopts_key ≡ false
  different = text_ne w.annotation_id pubopts_key named

  wrap_step :
      (ec : EncryptConfig) (opts_data t : List ℕ) (rest : List (Text × Text)) (m : Annotations)
      (b : Bool)
      → pre_wrap_key enc w ec [] opts_data ≡ ok t
      → wrap_all enc (only scheme w) ec [] opts_data ((w.annotation_id, scheme) ∷ rest) m b
        ≡ wrap_all enc
            (only scheme w)
            ec
            []
            opts_data
            rest
            (if is_empty t then m else insert w.annotation_id t m)
            (not (is_empty t) || b)
  unfolding wrap_all lookup
  wrap_step ec opts_data t rest m b e = rw (get_only, e) refl

  wrap_nothing :
      (ec : EncryptConfig) (opts_data : List ℕ) (m : Annotations) (b : Bool)
      → wrap_all enc (only scheme w) ec [] opts_data [] m b ≡ ok (m, b)
  unfolding wrap_all
  wrap_nothing ec opts_data m b = refl

  is_full : (k : List ℕ) → k ≢ [] → is_empty (base64_encode k) ≡ false
  is_full k ne = is_empty-false (base64_encode k) (base64-ne-nil k ne)

  pub wrap_one :
      (ec : EncryptConfig) (k opts_data : List ℕ)
      → w.wrap_keys ec opts_data ≡ some k
      → k ≢ []
      → wrap_all enc
          (only scheme w)
          ec
          []
          opts_data
          (key_wrappers_annotations (only scheme w))
          []
          false
        ≡ ok ((w.annotation_id, base64_encode k) ∷ [], true)
  unfolding insert
  wrap_one ec k opts_data e ne =
      rw
        (
          annotations_of_only,
          wrap_step ec opts_data (base64_encode k) [] [] false
              (pre_wrap_key_first enc laws w ec k opts_data e ne),
          is_full k ne,
        )
        (wrap_nothing ec opts_data (insert w.annotation_id (base64_encode k) []) true)

  pub pubopts_found :
      (k pub_opts : List ℕ) → get_layer_pub_opts enc (sealed k pub_opts) ≡ ok pub_opts
  unfolding get_layer_pub_opts lookup
  pubopts_found k pub_opts =
      ground (arith, different, text_eq_refl pubopts_key, base64_decode-encode pub_opts)

  wrapped_found :
      (k pub_opts : List ℕ)
      → get_layer_key_opts enc w.annotation_id (sealed k pub_opts) ≡ some (base64_encode k)
  unfolding get_layer_key_opts lookup first_provider
  wrapped_found k pub_opts =
      elim (Bool-cases (is_some (strip_prefix provider_prefix w.annotation_id))) [
        | inl by ↦ rw by refl
        | inr other ↦ rw (other, text_eq_refl w.annotation_id) refl
      ]

  pub add_pubopts :
      (k pub_opts : List ℕ)
      → with_pubopts enc pub_opts ((w.annotation_id, base64_encode k) ∷ [], true)
        ≡ ok (sealed k pub_opts)
  unfolding with_pubopts insert
  add_pubopts k pub_opts = rw different refl

  unwrap_step :
      (dc : DecryptConfig) (annotations : Annotations) (b64_annotation opts_data : List ℕ)
      (rest : List (Text × Text)) (b : Bool)
      → get_layer_key_opts enc w.annotation_id annotations ≡ some b64_annotation
      → w.probe dc.param ≡ true
      → pre_unwrap_key enc w dc b64_annotation ≡ ok opts_data
      → opts_data ≢ []
      → try_wrappers enc (only scheme w) dc annotations ((w.annotation_id, scheme) ∷ rest) b
        ≡ ok opts_data
  unfolding try_wrappers
  unwrap_step dc annotations b64_annotation [] rest b g p e ne = absurd (ne refl)
  unwrap_step dc annotations b64_annotation (x ∷ opts_data) rest b g p e ne =
      ground (arith, g, get_only, p, e)

  pub unwrap_one :
      (dc : DecryptConfig) (k opts_data pub_opts : List ℕ)
      → w.probe dc.param ≡ true
      → k ≢ []
      → w.unwrap_keys dc k ≡ some opts_data
      → opts_data ≢ []
      → decrypt_layer_key_opts_data enc (only scheme w) dc (some (sealed k pub_opts)) ≡ ok opts_data
  unfolding decrypt_layer_key_opts_data
  unwrap_one dc k opts_data pub_opts p ne e full = rw annotations_of_only (
      unwrap_step dc (sealed k pub_opts) (base64_encode k) opts_data [] false
        (wrapped_found k pub_opts) p (pre_unwrap_key_first enc laws w dc k opts_data ne e) full)
