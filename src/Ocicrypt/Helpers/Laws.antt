-- ===== src/Ocicrypt/Helpers/Laws.antt =====
-- The configuration that key files with passwords give.
use coco_guest_components.Common.{
  ℕ, suc, ◌≡◌, refl, ap, ◌∙◌, none, List, [], ◌∷◌, ◌++◌, append_assoc, append-nil, length, ok,
  arith,
}
use coco_guest_components.Text.{Text, bytes, strip_prefix, ◌=ₜ◌}
use coco_guest_components.Text.Map.{lookup, insert}
use coco_guest_components.External.Files.{Files}
use coco_guest_components.Ocicrypt.KeyWrap.{Params}
use coco_guest_components.Ocicrypt.Config.{
  Values, privkeys, privkeys_passwords, update_param, update_both, decrypt_with_priv_keys,
  decrypt_with_x509s, decrypt_with_gpg, decrypt_with_pkcs11,
}
use coco_guest_components.Ocicrypt.Helpers.{
  PrivateKeys, no_private_keys, process_recipient_keys, process_x509_certs, key_and_password,
  add_key, process_private_keyfiles, build_decrypt_config, create_decrypt_config,
}

abbrev pub contents : List (List ℕ × List ℕ) → Values
contents [] = []
contents ((c, p) ∷ pairs) = c ∷ contents pairs

abbrev pub passwords : List (List ℕ × List ℕ) → Values
passwords [] = []
passwords ((c, p) ∷ pairs) = p ∷ passwords pairs

same_length : (pairs : List (List ℕ × List ℕ)) → length (contents pairs) ≡ length (passwords pairs)
same_length [] = refl
same_length ((c, p) ∷ pairs) = ap (suc) (same_length pairs)

-- All arrays that a key file is put into.
abbrev with_pairs : List (List ℕ × List ℕ) → PrivateKeys → PrivateKeys
with_pairs pairs k = record {
  gpg_secret_key_ring_files = k.gpg_secret_key_ring_files ++ contents pairs;
  gpg_secret_key_passwords = k.gpg_secret_key_passwords ++ passwords pairs;
  priv_keys = k.priv_keys ++ contents pairs;
  priv_keys_passwords = k.priv_keys_passwords ++ passwords pairs;
  pkcs11_yamls = k.pkcs11_yamls ++ contents pairs;
  key_providers = k.key_providers;
}

module _ (files : Files) where
  -- The texts name key files, which have these contents and passwords.
  abbrev pub AreRead : List Text → List (List ℕ × List ℕ) → Type 0
  AreRead [] [] = Unit
  AreRead [] (_ ∷ _) = ⊥
  AreRead (_ ∷ _) [] = ⊥
  AreRead (key ∷ keys) (pair ∷ pairs) =
      (strip_prefix (bytes "provider:") key ≡ none)
      × (key_and_password files key ≡ ok pair)
      × AreRead keys pairs

  added :
      (c p : List ℕ) (pairs : List (List ℕ × List ℕ)) (k : PrivateKeys)
      → with_pairs pairs (add_key files c p k) ≡ with_pairs ((c, p) ∷ pairs) k
  added c p pairs k =
      rw
        (
          append_assoc k.gpg_secret_key_ring_files (c ∷ []) (contents pairs),
          append_assoc k.gpg_secret_key_passwords (p ∷ []) (passwords pairs),
          append_assoc k.priv_keys (c ∷ []) (contents pairs),
          append_assoc k.priv_keys_passwords (p ∷ []) (passwords pairs),
          append_assoc k.pkcs11_yamls (c ∷ []) (contents pairs),
        )
        refl

  process_keys :
      (keys : List Text) (pairs : List (List ℕ × List ℕ)) (k : PrivateKeys)
      → AreRead keys pairs
      → process_private_keyfiles files k keys ≡ ok (with_pairs pairs k)
  unfolding process_private_keyfiles strip_prefix
  process_keys [] [] k h =
      rw
        (
          append-nil k.gpg_secret_key_ring_files,
          append-nil k.gpg_secret_key_passwords,
          append-nil k.priv_keys,
          append-nil k.priv_keys_passwords,
          append-nil k.pkcs11_yamls,
        )
        refl
  process_keys [] (_ ∷ _) k h = absurd h
  process_keys (_ ∷ _) [] k h = absurd h
  process_keys (key ∷ keys) ((c, p) ∷ pairs) k (plain, given, rest) =
      rw (plain, given)
        (process_keys keys pairs (add_key files c p k) rest ∙ ap ok (added c p pairs k))

  -- What the configuration holds of the certificates, key files and passwords.
  abbrev pub built : Values → List (List ℕ × List ℕ) → Params
  built [] pairs =
      (bytes "gpg-privatekeys", contents pairs)
      ∷ (bytes "gpg-privatekeys-passwords", passwords pairs)
      ∷ (privkeys, contents pairs)
      ∷ (privkeys_passwords, passwords pairs)
      ∷ (bytes "pkcs11-config", [] ∷ [])
      ∷ (bytes "pkcs11-yamls", contents pairs)
      ∷ []
  built (x ∷ x509s) pairs =
      (bytes "gpg-privatekeys", contents pairs)
      ∷ (bytes "gpg-privatekeys-passwords", passwords pairs)
      ∷ (bytes "x509s", x ∷ x509s)
      ∷ (privkeys, contents pairs)
      ∷ (privkeys_passwords, passwords pairs)
      ∷ (bytes "pkcs11-config", [] ∷ [])
      ∷ (bytes "pkcs11-yamls", contents pairs)
      ∷ []

  -- The same before the private keys.
  abbrev built_before : Values → List (List ℕ × List ℕ) → Params
  built_before [] pairs =
      (bytes "gpg-privatekeys", contents pairs)
      ∷ (bytes "gpg-privatekeys-passwords", passwords pairs)
      ∷ []
  built_before (x ∷ x509s) pairs =
      (bytes "gpg-privatekeys", contents pairs)
      ∷ (bytes "gpg-privatekeys-passwords", passwords pairs)
      ∷ (bytes "x509s", x ∷ x509s)
      ∷ []

  priv_keys_lem :
      (c p : List ℕ) (pairs : List (List ℕ × List ℕ)) (param : Params)
      → decrypt_with_priv_keys (c ∷ contents pairs) (p ∷ passwords pairs) param
        ≡ update_both privkeys (c ∷ contents pairs) privkeys_passwords (p ∷ passwords pairs) param
  unfolding decrypt_with_priv_keys
  priv_keys_lem c p pairs param = ground (arith, same_length pairs)

  build_lem :
      (x509s : Values) (c p : List ℕ) (pairs : List (List ℕ × List ℕ))
      → build_decrypt_config files x509s (with_pairs ((c, p) ∷ pairs) no_private_keys)
        ≡ ok (record { param = built x509s ((c, p) ∷ pairs) })
  unfolding build_decrypt_config decrypt_with_gpg decrypt_with_x509s decrypt_with_pkcs11 update_both
      update_param lookup insert ◌=ₜ◌
  build_lem [] c p pairs =
      ground (arith, priv_keys_lem c p pairs (built_before [] ((c, p) ∷ pairs)))
  build_lem (x ∷ x509s) c p pairs =
      ground (arith, priv_keys_lem c p pairs (built_before (x ∷ x509s) ((c, p) ∷ pairs)))

  -- Key files that can be read, at least one of them and no provider among them, make a configuration
  -- that has, for GnuPG and as private keys, the content of every file in the order given and at the
  -- same position its password; that has the files for PKCS #11 too, under an empty configuration; and
  -- that has the certificates that were found, if there are any. It has nothing else.
  pub create_decrypt_config_lem :
      (keys : List Text) (c p : List ℕ) (pairs : List (List ℕ × List ℕ)) (x509s : Values)
      → AreRead keys ((c, p) ∷ pairs)
      → process_x509_certs files keys ≡ ok x509s
      → create_decrypt_config files keys [] ≡ ok (record { param = built x509s ((c, p) ∷ pairs) })
  unfolding create_decrypt_config process_recipient_keys
  create_decrypt_config_lem keys c p pairs x509s read certs =
      rw (certs, process_keys keys ((c, p) ∷ pairs) no_private_keys read)
        (build_lem x509s c p pairs)
