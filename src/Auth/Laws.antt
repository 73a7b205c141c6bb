-- ===== src/Auth/Laws.antt =====
-- Whom a credential is for, and which one is taken.
use coco_guest_components.Common.{
  ℕ, zero, suc, ◌≤◌, ◌≡◌, refl, sym, ap, ◌∙◌, ◌≢◌, ◌↔◌, ◌⊎◌, inl, inr, Option, none, some,
  Option-cases, List, [], ◌∷◌, Memᴰ, Bool-cases, length, length-append, find_map, ok, >>=-eq-ok,
  ◌>>=◌, ok-injective, arith,
}
use coco_guest_components.Text.{Text, rsplit_once, ◌=ₜ◌}
use coco_guest_components.Text.Laws.{text_eq_iff, length-rsplit_once}
use coco_guest_components.Text.Map.{lookup}
use coco_guest_components.External.Oci.{OciClient}
use coco_guest_components.Signature.Image.Namespaces.{IsPathPrefix, prefix_step, prefix_last}
use coco_guest_components.Auth.{
  Auths, RegistryAuth, anonymous, basic, shorter_keys, auth_keys_for_key, normalize_registry,
  normalize_key_to_registry, decode_auth, find_registry, full_name, chosen_auth,
  credential_from_auth_config,
}

keys_sound : (f : ℕ) (key k : Text) → Memᴰ k (key ∷ shorter_keys f key) → IsPathPrefix k key
unfolding shorter_keys
keys_sound f key k (Memᴰ.head e) = inl e
keys_sound zero key k (Memᴰ.tail m) = elim m [ ]
keys_sound (suc f) key k (Memᴰ.tail m) = elim (Option-cases (rsplit_once b'/' key)) [
  | inl last ↦ elim (rw (last, shorter_keys) at m) [ ]
  | inr ((a, b), cut) ↦
      (prefix_step k key a b cut).1 (inr (keys_sound f a k (rw (cut, shorter_keys) at m)))
]

keys_complete :
    (f : ℕ) (key k : Text) → length key ≤ f → IsPathPrefix k key → Memᴰ k (key ∷ shorter_keys f key)
unfolding shorter_keys
keys_complete f key k le (inl e) = Memᴰ.head e
keys_complete zero [] k le (inr (r, cut)) =
    absurd (omega (arith, ap length cut, length-append k (b'/' ∷ r)))
keys_complete zero (x ∷ key) k le p = absurd (omega (arith, le))
keys_complete (suc f) key k le (inr p) = elim (Option-cases (rsplit_once b'/' key)) [
  | inl last ↦ Memᴰ.head (prefix_last k key last (inr p))
  | inr ((a, b), cut) ↦ elim ((prefix_step k key a b cut).0 (inr p)) [
    | inl e ↦ Memᴰ.head e
    | inr shorter ↦
        let inner =
          keys_complete f a k (omega (arith, le, length-rsplit_once b'/' key a b cut)) shorter in
        Memᴰ.tail (rw (cut, shorter_keys) inner)
  ]
]

-- The keys under which a name is looked up are the name and what stands before each of its slashes.
pub auth_keys_for_key_iff : (key k : Text) → Memᴰ k (auth_keys_for_key key) ↔ IsPathPrefix k key
unfolding auth_keys_for_key
auth_keys_for_key_iff key k =
    (keys_sound (length key) key k, keys_complete (length key) key k (omega arith))

find_map-eq-some :
    (auths : Auths) (keys : List Text) (auth : Text)
    → find_map (λ key. lookup key auths) keys ≡ some auth
    → (key : Text) × Memᴰ key keys × (lookup key auths ≡ some auth)
find_map-eq-some auths [] auth h = cc
find_map-eq-some auths (k ∷ keys) auth h = elim (Option-cases (lookup k auths)) [
  | inl missing ↦
      let (key, m, found) = find_map-eq-some auths keys auth (rw (missing, find_map) at h) in
      (key, Memᴰ.tail m, found)
  | inr (v, found) ↦ (k, Memᴰ.head refl, found ∙ (rw (found, find_map) at h))
]

find_map-eq-none :
    (auths : Auths) (keys : List Text)
    → find_map (λ key. lookup key auths) keys ≡ none
    → (key : Text) → Memᴰ key keys
    → lookup key auths ≡ none
find_map-eq-none auths [] h key m = elim m [ ]
find_map-eq-none auths (k ∷ keys) h key m = elim (Option-cases (lookup k auths)) [
  | inl missing ↦ elim m [
    | Memᴰ.head e ↦ ap (λ v. lookup v auths) e ∙ missing
    | Memᴰ.tail rest ↦ find_map-eq-none auths keys (rw (missing, find_map) at h) key rest
  ]
  | inr (v, found) ↦ absurd (ground (arith, h, found))
]

-- An entry of the file whose key is normalized to a registry.
abbrev pub IsFor : Text → Auths → Text → Type 0
IsFor registry auths auth =
    (key : Text) × Memᴰ (key, auth) auths × (normalize_key_to_registry key ≡ registry)

find_registry-eq-some :
    (registry : Text) (auths : Auths) (auth : Text)
    → find_registry registry auths ≡ some auth
    → IsFor registry auths auth
unfolding find_registry
find_registry-eq-some registry [] auth h = cc
find_registry-eq-some registry ((key, a) ∷ auths) auth h =
    elim (Bool-cases (normalize_key_to_registry key =ₜ registry)) [
      | inl same ↦
          let e : a ≡ auth = ground (arith, same, h) in
          (
            key,
            Memᴰ.head (ap (λ v. (key, v)) (sym e)),
            (text_eq_iff (normalize_key_to_registry key) registry).0 same,
          )
      | inr other ↦
          let later : find_registry registry auths ≡ some auth = ground (arith, other, h) in
          let (k, m, e) = find_registry-eq-some registry auths auth later in (k, Memᴰ.tail m, e)
    ]

find_registry-eq-none :
    (registry : Text) (auths : Auths)
    → find_registry registry auths ≡ none
    → (key auth : Text) → Memᴰ (key, auth) auths
    → normalize_key_to_registry key ≢ registry
unfolding find_registry
find_registry-eq-none registry [] h key auth m same = elim m [ ]
find_registry-eq-none registry ((k, a) ∷ auths) h key auth m same =
    elim (Bool-cases (normalize_key_to_registry k =ₜ registry)) [
      | inl yes_it ↦ absurd (ground (arith, yes_it, h))
      | inr other ↦ elim m [
        | Memᴰ.head e ↦
            let at : normalize_key_to_registry k ≡ registry =
              ap (λ v. normalize_key_to_registry v.0) (sym e) ∙ same in
            absurd
              (ground (arith, (text_eq_iff (normalize_key_to_registry k) registry).1 at, other))
        | Memᴰ.tail rest ↦
            let later : find_registry registry auths ≡ none = ground (arith, other, h) in
            find_registry-eq-none registry auths later key auth rest same
      ]
    ]

module _ (oci : OciClient) (base64_decode : Text → Option (List ℕ)) where
  open oci use {Reference, resolve_registry}

  abbrev pub registry_of : Reference → Text
  registry_of reference = normalize_registry (resolve_registry reference)

  -- No key of the file is the image's name or stands before one of its slashes.
  abbrev pub NoKey : Reference → Auths → Type 0
  NoKey reference auths =
      (key : Text)
      → IsPathPrefix key (full_name oci base64_decode reference)
      → lookup key auths ≡ none

  -- The entry is the image's own, or else the file has none and the entry is for its registry.
  abbrev pub IsEntitled : Reference → Auths → Text → Type 0
  IsEntitled reference auths auth =
      ((key : Text) × IsPathPrefix key (full_name oci base64_decode reference)
        × (lookup key auths ≡ some auth))
      ⊎ (NoKey reference auths × IsFor (registry_of reference) auths auth)

  no_key :
      (reference : Reference) (auths : Auths)
      → find_map
          (λ key. lookup key auths)
          (auth_keys_for_key (full_name oci base64_decode reference))
        ≡ none
      → NoKey reference auths
  no_key reference auths e key p =
      let full = full_name oci base64_decode reference in
      find_map-eq-none auths (auth_keys_for_key full) e key ((auth_keys_for_key_iff full key).1 p)

  chosen_auth-eq-some :
      (reference : Reference) (auths : Auths) (auth : Text)
      → chosen_auth oci base64_decode reference auths ≡ some auth
      → IsEntitled reference auths auth
  unfolding chosen_auth
  chosen_auth-eq-some reference auths auth h =
      let full = full_name oci base64_decode reference in
      elim (Option-cases (find_map (λ key. lookup key auths) (auth_keys_for_key full))) [
        | inr (a, e) ↦
            let same : a ≡ auth = ground (arith, e, h) in
            let (key, m, found) = find_map-eq-some auths (auth_keys_for_key full) a e in
            inl (key, (auth_keys_for_key_iff full key).0 m, found ∙ ap some same)
        | inl e ↦
            let later : find_registry (registry_of reference) auths ≡ some auth =
              ground (arith, e, h) in
            inr (
              no_key reference auths e,
              find_registry-eq-some (registry_of reference) auths auth later,
            )
      ]

  chosen_auth-eq-none :
      (reference : Reference) (auths : Auths)
      → chosen_auth oci base64_decode reference auths ≡ none
      → NoKey reference auths
        × ((key auth : Text)
            → Memᴰ (key, auth) auths
            → normalize_key_to_registry key ≢ registry_of reference)
  unfolding chosen_auth
  chosen_auth-eq-none reference auths h =
      let full = full_name oci base64_decode reference in
      elim (Option-cases (find_map (λ key. lookup key auths) (auth_keys_for_key full))) [
        | inr (a, e) ↦ absurd (ground (arith, e, h))
        | inl e ↦
            let later : find_registry (registry_of reference) auths ≡ none = ground (arith, e, h) in
            (no_key reference auths e, find_registry-eq-none (registry_of reference) auths later)
      ]

  credential_lem :
      (reference : Reference) (auths : Auths) (auth : Text)
      → chosen_auth oci base64_decode reference auths ≡ some auth
      → credential_from_auth_config oci base64_decode reference auths
        ≡ (decode_auth base64_decode auth >>= λ p. ok (basic p.0 p.1))
  unfolding credential_from_auth_config
  credential_lem reference auths auth e = ground (arith, e)

  -- A credential is the decoded text of an entry that is the image's own, by its name or what stands
  -- before one of its slashes, or, if there is none, of an entry for the image's registry. And a
  -- request is anonymous only if the file has neither.
  pub credential_from_auth_config_sound :
      (reference : Reference) (auths : Auths) (credential : RegistryAuth)
      → credential_from_auth_config oci base64_decode reference auths ≡ ok credential
      → ((auth username password : Text) × (credential ≡ basic username password)
          × (decode_auth base64_decode auth ≡ ok (username, password))
          × IsEntitled reference auths auth)
        ⊎ ((credential ≡ anonymous)
            × NoKey reference auths
            × ((key auth : Text)
                → Memᴰ (key, auth) auths
                → normalize_key_to_registry key ≢ registry_of reference))
  unfolding credential_from_auth_config
  credential_from_auth_config_sound reference auths credential h =
      elim (Option-cases (chosen_auth oci base64_decode reference auths)) [
        | inl e ↦
            let same : credential ≡ anonymous = ground (arith, e, h) in
            let (no_entry, no_registry) = chosen_auth-eq-none reference auths e in
            inr (same, no_entry, no_registry)
        | inr (auth, e) ↦
            let (pair, decoded, given) =
              >>=-eq-ok (decode_auth base64_decode auth) _
                (sym (credential_lem reference auths auth e) ∙ h) in
            inl (
              auth,
              pair.0,
              pair.1,
              sym (ok-injective given),
              decoded,
              chosen_auth-eq-some reference auths auth e,
            )
      ]
