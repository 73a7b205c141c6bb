-- ===== src/Ocicrypt/Encryption/Wrapping.antt =====
-- The annotation of one wrapper, with what is appended to it.
use coco_guest_components.Common.{
  ℕ, ◌≡◌, refl, sym, ap, ◌∙◌, ◌≢◌, false, none, some, List, [], ◌∷◌, ◌++◌, append_assoc, map, All,
  Result, ok, err, arith,
}
use coco_guest_components.Text.{Text, IsFree, is_empty, join}
use coco_guest_components.Text.Split.{split-join}
use coco_guest_components.External.Encoding.{Encoding, EncodingLaws}
use coco_guest_components.Ocicrypt.KeyWrap.{DecryptConfig, EncryptConfig, KeyWrapper}
use coco_guest_components.Ocicrypt.Encryption.{
  LayerError, append_annotation, pre_wrap_key, unwrap_first, pre_unwrap_key, no_suitable_key,
}

-- The first of the wrapped keys that the wrapper unwraps.
unfoldable pub first_unwrapped :
    KeyWrapper → DecryptConfig → List (List ℕ) → Result LayerError (List ℕ)
first_unwrapped w dc [] = err no_suitable_key
first_unwrapped w dc (k ∷ ks) = elim (w.unwrap_keys dc k) [
  | some opts_data ↦ ok opts_data
  | none ↦ first_unwrapped w dc ks
]

module _ (enc : Encoding) (laws : EncodingLaws enc) where
  open enc use {base64_encode, base64_decode}
  open laws use {base64_decode-encode, base64-IsFree, base64-ne-nil}

  -- The annotation that holds a list of wrapped keys.
  abbrev pub annotation_of : List (List ℕ) → Text
  annotation_of ks = join b',' (map base64_encode ks)

  unwrap_first-encoded :
      (w : KeyWrapper) (dc : DecryptConfig) (ks : List (List ℕ))
      → unwrap_first enc w dc (map base64_encode ks) ≡ first_unwrapped w dc ks
  unfolding unwrap_first first_unwrapped
  unwrap_first-encoded w dc [] = refl
  unwrap_first-encoded w dc (k ∷ ks) =
      ground (arith, base64_decode-encode k, unwrap_first-encoded w dc ks)

  encoded-IsFree : (ks : List (List ℕ)) → All (IsFree b',') (map base64_encode ks)
  encoded-IsFree [] = tt
  encoded-IsFree (k ∷ ks) = (base64-IsFree k, encoded-IsFree ks)

  join-ne-nil : (p : Text) (ps : List Text) → p ≢ [] → is_empty (join b',' (p ∷ ps)) ≡ false
  unfolding join
  join-ne-nil [] ps h = absurd (h refl)
  join-ne-nil (x ∷ p) [] h = refl
  join-ne-nil (x ∷ p) (q ∷ ps) h = refl

  -- Unwrapping an annotation tries its keys in order.
  pub pre_unwrap_key_lem :
      (w : KeyWrapper) (dc : DecryptConfig) (k : List ℕ) (ks : List (List ℕ))
      → k ≢ []
      → pre_unwrap_key enc w dc (annotation_of (k ∷ ks)) ≡ first_unwrapped w dc (k ∷ ks)
  unfolding pre_unwrap_key
  pre_unwrap_key_lem w dc k ks h =
      rw
        (
          join-ne-nil (base64_encode k) (map base64_encode ks) (base64-ne-nil k h),
          split-join b',' (base64_encode k) (map base64_encode ks) (encoded-IsFree (k ∷ ks)),
        )
        (unwrap_first-encoded w dc (k ∷ ks))

  join-snoc :
      (p : Text) (ps : List Text) (q : Text)
      → join b',' (p ∷ (ps ++ q ∷ [])) ≡ join b',' (p ∷ ps) ++ b',' ∷ q
  unfolding join
  join-snoc p [] q = refl
  join-snoc p (r ∷ ps) q =
      rw (join-snoc r ps q) (sym (append_assoc p (b',' ∷ join b',' (r ∷ ps)) (b',' ∷ q)))

  map-snoc :
      (ks : List (List ℕ)) (k : List ℕ)
      → map base64_encode (ks ++ k ∷ []) ≡ map base64_encode ks ++ base64_encode k ∷ []
  map-snoc [] k = refl
  map-snoc (j ∷ ks) k = ap (λ r. base64_encode j ∷ r) (map-snoc ks k)

  append_nothing :
      (k : List ℕ)
      → append_annotation enc (annotation_of []) (base64_encode k) ≡ annotation_of (k ∷ [])
  unfolding append_annotation join
  append_nothing k = refl

  append_annotation_lem :
      (ks : List (List ℕ)) (k : List ℕ)
      → All (λ j. j ≢ []) ks
      → append_annotation enc (annotation_of ks) (base64_encode k) ≡ annotation_of (ks ++ k ∷ [])
  unfolding append_annotation
  append_annotation_lem [] k h = append_nothing k
  append_annotation_lem (j ∷ ks) k h =
      rw (join-ne-nil (base64_encode j) (map base64_encode ks) (base64-ne-nil j h.0), map-snoc ks k)
        (sym (join-snoc (base64_encode j) (map base64_encode ks) (base64_encode k)))

  pub pre_wrap_key_lem :
      (w : KeyWrapper) (ec : EncryptConfig) (ks : List (List ℕ)) (k opts_data : List ℕ)
      → All (λ j. j ≢ []) ks
      → w.wrap_keys ec opts_data ≡ some k
      → k ≢ []
      → pre_wrap_key enc w ec (annotation_of ks) opts_data ≡ ok (annotation_of (ks ++ k ∷ []))
  unfolding pre_wrap_key
  pre_wrap_key_lem w ec ks [] opts_data h e ne = absurd (ne refl)
  pre_wrap_key_lem w ec ks (x ∷ k) opts_data h e ne =
      rw e (ap ok (append_annotation_lem ks (x ∷ k) h))

  pub pre_wrap_key_first :
      (w : KeyWrapper) (ec : EncryptConfig) (k opts_data : List ℕ)
      → w.wrap_keys ec opts_data ≡ some k
      → k ≢ []
      → pre_wrap_key enc w ec [] opts_data ≡ ok (base64_encode k)
  unfolding join
  pre_wrap_key_first w ec k opts_data = pre_wrap_key_lem w ec [] k opts_data tt

  pub pre_unwrap_key_first :
      (w : KeyWrapper) (dc : DecryptConfig) (k opts_data : List ℕ)
      → k ≢ []
      → w.unwrap_keys dc k ≡ some opts_data
      → pre_unwrap_key enc w dc (base64_encode k) ≡ ok opts_data
  unfolding join first_unwrapped
  pre_unwrap_key_first w dc k opts_data ne e =
      pre_unwrap_key_lem w dc k [] ne ∙ rw (e, first_unwrapped) refl

  -- When an annotation holds wrapped keys, none of them empty, and the wrapper wraps a key for a
  -- further recipient, `pre_wrap_key` gives an annotation from which `pre_unwrap_key` tries every key
  -- that was there, in order, and then the new one.
  pub pre_unwrap_key-pre_wrap_key :
      (w : KeyWrapper) (ec : EncryptConfig) (dc : DecryptConfig) (ks : List (List ℕ))
      (k opts_data : List ℕ)
      → All (λ j. j ≢ []) ks
      → w.wrap_keys ec opts_data ≡ some k
      → k ≢ []
      → (t : Text) × (pre_wrap_key enc w ec (annotation_of ks) opts_data ≡ ok t)
        × (pre_unwrap_key enc w dc t ≡ first_unwrapped w dc (ks ++ k ∷ []))
  pre_unwrap_key-pre_wrap_key w ec dc [] k opts_data h e ne = (
    annotation_of (k ∷ []),
    pre_wrap_key_lem w ec [] k opts_data h e ne,
    pre_unwrap_key_lem w dc k [] ne,
  )
  pre_unwrap_key-pre_wrap_key w ec dc (j ∷ ks) k opts_data h e ne = (
    annotation_of (j ∷ (ks ++ k ∷ [])),
    pre_wrap_key_lem w ec (j ∷ ks) k opts_data h e ne,
    pre_unwrap_key_lem w dc j (ks ++ k ∷ []) h.0,
  )
