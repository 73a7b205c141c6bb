-- ===== src/Ocicrypt/Config/Laws.antt =====
-- The private keys and the passwords of a decryption configuration.
use coco_guest_components.Common.{
  ℕ, ◌≡◌, refl, sym, subst, ap, ◌∙◌, true, false, Bool-cases, inl, inr, Option-cases, List, [], ◌∷◌,
  All, All-map, ◌++◌, ◌==◌, ==_iff, append-nil, Result-cases, length, length-append, get_or, ok,
  err, arith,
}
use coco_guest_components.Text.{Text, bytes, ◌=ₜ◌}
use coco_guest_components.Text.Map.{lookup, lookup-insert, lookup_inserted}
use coco_guest_components.Ocicrypt.KeyWrap.{Params}
use coco_guest_components.Ocicrypt.Config.Provider.{provider_param, with_key_provider}
use coco_guest_components.Ocicrypt.Config.{
  ConfigError, Values, update_param, update_both, privkeys, privkeys_passwords,
  decrypt_with_priv_keys, decrypt_with_x509s, decrypt_with_gpg, decrypt_with_pkcs11,
}

-- The values of a key.
abbrev pub values_of : Text → Params → Values
values_of key param = get_or [] (lookup key param)

-- An update appends to the values of its key, and leaves those of the other keys.
updated :
    (key : Text) (value : Values) (param : Params)
    → values_of key (update_param key value param).0 ≡ values_of key param ++ value
unfolding update_param
updated key [] param = sym (append-nil (values_of key param))
updated key (v ∷ value) param = elim (Option-cases (lookup key param)) [
  | inl fresh ↦ ground (arith, fresh, lookup_inserted key (v ∷ value) param)
  | inr (old, found) ↦ ground (arith, found, lookup_inserted key (old ++ v ∷ value) param)
]

kept :
    (j key : Text) (value : Values) (param : Params)
    → key =ₜ j ≡ false
    → values_of j (update_param key value param).0 ≡ values_of j param
unfolding update_param
kept j key [] param other = refl
kept j key (v ∷ value) param other = elim (Option-cases (lookup key param)) [
  | inl fresh ↦ ground (arith, fresh, lookup-insert key j (v ∷ value) param, other)
  | inr (old, found) ↦ ground (arith, found, lookup-insert key j (old ++ v ∷ value) param, other)
]

-- An update fails only for no values.
update_param-full :
    (key : Text) (v : List ℕ) (value : Values) (param : Params)
    → (update_param key (v ∷ value) param).1 ≡ ok tt
unfolding update_param
update_param-full key v value param = elim (Option-cases (lookup key param)) [
  | inl fresh ↦ ground (arith, fresh)
  | inr (old, found) ↦ ground (arith, found)
]

update_both-ok :
    (key key' : Text) (value value' : Values) (param : Params)
    → (update_param key value param).1 ≡ ok tt
    → update_both key value key' value' param
      ≡ update_param key' value' (update_param key value param).0
unfolding update_both
update_both-ok key key' value value' param good = ground (arith, good)

update_both-err :
    (key key' : Text) (value value' : Values) (param : Params) (e : ConfigError)
    → (update_param key value param).1 ≡ err e
    → (update_both key value key' value' param).0 ≡ (update_param key value param).0
unfolding update_both
update_both-err key key' value value' param e bad = ground (arith, bad)

both_kept :
    (j key key' : Text) (value value' : Values) (param : Params)
    → key =ₜ j ≡ false
    → key' =ₜ j ≡ false
    → values_of j (update_both key value key' value' param).0 ≡ values_of j param
both_kept j key key' value value' param other other' =
    elim (Result-cases (update_param key value param).1) [
      | inl (_, good) ↦
          ap (λ r. values_of j r.0) (update_both-ok key key' value value' param good)
          ∙ kept j key' value' (update_param key value param).0 other'
          ∙ kept j key value param other
      | inr (e, bad) ↦
          ap (values_of j) (update_both-err key key' value value' param e bad)
          ∙ kept j key value param other
    ]

-- As many passwords as private keys.
abbrev pub IsPaired : Params → Type 0
IsPaired param = length (values_of privkeys param) ≡ length (values_of privkeys_passwords param)

passwords_other : privkeys_passwords =ₜ privkeys ≡ false
unfolding ◌=ₜ◌
passwords_other = refl

privkeys_other : privkeys =ₜ privkeys_passwords ≡ false
unfolding ◌=ₜ◌
privkeys_other = refl

-- Both lists are extended, by as many values.
IsPaired-update :
    (k w : List ℕ) (keys passwords : Values) (param : Params)
    → length keys ≡ length passwords
    → IsPaired param
    → IsPaired (update_both privkeys (k ∷ keys) privkeys_passwords (w ∷ passwords) param).0
IsPaired-update k w keys passwords param same paired =
    let mid = (update_param privkeys (k ∷ keys) param).0 in
    let last = (update_param privkeys_passwords (w ∷ passwords) mid).0 in
    let run =
      update_both-ok privkeys privkeys_passwords (k ∷ keys) (w ∷ passwords) param
        (update_param-full privkeys k keys param) in
    let of_keys : values_of privkeys last ≡ values_of privkeys param ++ k ∷ keys =
      kept privkeys privkeys_passwords (w ∷ passwords) mid passwords_other
      ∙ updated privkeys (k ∷ keys) param in
    let of_passwords : values_of privkeys_passwords last
        ≡ values_of privkeys_passwords param ++ w ∷ passwords =
      updated privkeys_passwords (w ∷ passwords) mid
      ∙ ap (λ v. v ++ w ∷ passwords)
          (kept privkeys_passwords privkeys (k ∷ keys) param privkeys_other) in
    let counted : length (values_of privkeys last) ≡ length (values_of privkeys_passwords last) =
      rw (of_keys, of_passwords)
        (omega (
          arith,
          length-append (values_of privkeys param) (k ∷ keys),
          length-append (values_of privkeys_passwords param) (w ∷ passwords),
          same,
          paired,
        )) in
    ap (λ r. length (values_of privkeys r.0)) run
    ∙ counted
    ∙ ap (λ r. length (values_of privkeys_passwords r.0)) (sym run)

nothing_updated : (param : Params) → (update_both privkeys [] privkeys_passwords [] param).0 ≡ param
unfolding update_both update_param
nothing_updated param = refl

both-IsPaired :
    (keys passwords : Values) (param : Params)
    → length keys ≡ length passwords
    → IsPaired param
    → IsPaired (update_both privkeys keys privkeys_passwords passwords param).0
both-IsPaired [] [] param same paired = subst IsPaired (sym (nothing_updated param)) paired
both-IsPaired [] (w ∷ passwords) param same paired = absurd (omega (arith, same))
both-IsPaired (k ∷ keys) [] param same paired = absurd (omega (arith, same))
both-IsPaired (k ∷ keys) (w ∷ passwords) param same paired =
    IsPaired-update k w keys passwords param (omega (arith, same)) paired

taken :
    (keys passwords : Values) (param : Params)
    → length keys == length passwords ≡ true
    → decrypt_with_priv_keys keys passwords param
      ≡ update_both privkeys keys privkeys_passwords passwords param
unfolding decrypt_with_priv_keys
taken keys passwords param h = ground (arith, h)

refused :
    (keys passwords : Values) (param : Params)
    → length keys == length passwords ≡ false
    → (decrypt_with_priv_keys keys passwords param).0 ≡ param
unfolding decrypt_with_priv_keys
refused keys passwords param h = ground (arith, h)

priv_keys-IsPaired :
    (keys passwords : Values) (param : Params)
    → IsPaired param
    → IsPaired (decrypt_with_priv_keys keys passwords param).0
priv_keys-IsPaired keys passwords param paired =
    elim (Bool-cases (length keys == length passwords)) [
      | inl same ↦
          subst (λ r. IsPaired r.0) (sym (taken keys passwords param same))
            (both-IsPaired keys passwords param ((==_iff (length keys) (length passwords)).0 same)
              paired)
      | inr differ ↦ subst IsPaired (sym (refused keys passwords param differ)) paired
    ]

IsPaired-kept :
    (param param' : Params)
    → values_of privkeys param' ≡ values_of privkeys param
    → values_of privkeys_passwords param' ≡ values_of privkeys_passwords param
    → IsPaired param
    → IsPaired param'
IsPaired-kept param param' keys passwords paired =
    ap length keys ∙ paired ∙ ap length (sym passwords)

-- A key provider that is not named like the lists of private keys and of their passwords.
abbrev pub IsOther : Text → Type 0
IsOther val =
    ((provider_param val).0 =ₜ privkeys ≡ false)
    × ((provider_param val).0 =ₜ privkeys_passwords ≡ false)

-- Key providers leave the values of the keys that none of them is named like.
providers-kept :
    (j : Text) (providers : List Text) (param : Params)
    → All (λ val. (provider_param val).0 =ₜ j ≡ false) providers
    → values_of j (with_key_provider providers param).0 ≡ values_of j param
unfolding with_key_provider
providers-kept j [] param other = refl
providers-kept j (val ∷ rest) param (first, others) =
    let (name, value) = provider_param val in
    let full = update_param-full name value [] param in
    ground (
      arith,
      full,
      kept j name (value ∷ []) param first,
      providers-kept j rest (update_param name (value ∷ []) param).0 others,
    )

-- What the decryption builders make of an empty configuration, whether they fail or not; no key
-- provider is named like the lists of private keys and of their passwords.
pub data Built : Params → Type 0 where
  new : Built []
  priv_keys :
      {param : Params}
      → Built param
      → (keys passwords : Values) → Built (decrypt_with_priv_keys keys passwords param).0
  x509s :
      {param : Params} → Built param → (certs : Values) → Built (decrypt_with_x509s certs param).0
  gpg :
      {param : Params}
      → Built param
      → (keys passwords : Values) → Built (decrypt_with_gpg keys passwords param).0
  pkcs11 :
      {param : Params}
      → Built param
      → (configs yamls : Values) → Built (decrypt_with_pkcs11 configs yamls param).0
  key_providers :
      {param : Params}
      → Built param
      → (providers : List Text) → All IsOther providers
      → Built (with_key_provider providers param).0

-- Whatever sequence of the five builders, for private keys, certificates, GPG keys, PKCS#11 and key
-- providers, made a decryption configuration, failures included, it has as many passwords as private
-- keys. The condition is that no key provider is named `privkeys` or `privkeys-passwords`.
pub Built-IsPaired : (param : Params) → Built param → IsPaired param
unfolding decrypt_with_x509s decrypt_with_gpg decrypt_with_pkcs11 ◌=ₜ◌ lookup
Built-IsPaired _ new = refl
Built-IsPaired _ (priv_keys {param} before keys passwords) =
    priv_keys-IsPaired keys passwords param (Built-IsPaired param before)
Built-IsPaired _ (x509s {param} before certs) =
    IsPaired-kept param (update_param (bytes "x509s") certs param).0
      (kept privkeys (bytes "x509s") certs param refl)
      (kept privkeys_passwords (bytes "x509s") certs param refl) (Built-IsPaired param before)
Built-IsPaired _ (gpg {param} before keys passwords) =
    let j = bytes "gpg-privatekeys" in
    let j' = bytes "gpg-privatekeys-passwords" in
    IsPaired-kept param (update_both j keys j' passwords param).0
      (both_kept privkeys j j' keys passwords param refl refl)
      (both_kept privkeys_passwords j j' keys passwords param refl refl)
      (Built-IsPaired param before)
Built-IsPaired _ (pkcs11 {param} before configs yamls) =
    let j = bytes "pkcs11-config" in
    let j' = bytes "pkcs11-yamls" in
    IsPaired-kept param (update_both j configs j' yamls param).0
      (both_kept privkeys j j' configs yamls param refl refl)
      (both_kept privkeys_passwords j j' configs yamls param refl refl)
      (Built-IsPaired param before)
Built-IsPaired _ (key_providers {param} before providers others) =
    IsPaired-kept param (with_key_provider providers param).0
      (providers-kept privkeys providers param (All-map (λ v o. o.0) providers others))
      (providers-kept privkeys_passwords providers param (All-map (λ v o. o.1) providers others))
      (Built-IsPaired param before)
