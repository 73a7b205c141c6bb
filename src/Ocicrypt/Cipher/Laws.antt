-- ===== src/Ocicrypt/Cipher/Laws.antt =====
-- What reading to the end gives, whatever the chunks.
use coco_guest_components.Common.{
  ℕ, zero, suc, ◌<◌, ◌≡◌, refl, ap, ◌∙◌, ◌≢◌, Bool, true, false, Option, some, List, [], ◌∷◌, ◌++◌,
  append_assoc, append-nil, Bool-cases, inl, inr, map, All, concat, length, if◌then◌else◌, Result,
  ok, err, arith,
}
use coco_guest_components.Text.{◌=ₜ◌}
use coco_guest_components.External.Crypto.{Crypto, CryptoLaws}
use coco_guest_components.Ocicrypt.Cipher.{
  IoError, hmac_mismatch, IoEvent, chunk, AesCtrBlockCipherState, AesCtrBlockCipher, process,
  on_event, read, read_to_end,
}

-- The reader gives these chunks and then ends.
abbrev pub chunks : List (List ℕ) → List IoEvent
chunks = map chunk

abbrev pub AreNonempty : List (List ℕ) → Type 0
AreNonempty = All (λ c. c ≢ [])

module _ (crypto : Crypto) where
  open crypto use {Cipher, Mac, apply_keystream, mac_update, mac_finalize}

  abbrev pub running : ℕ → Bool → AesCtrBlockCipherState crypto → AesCtrBlockCipher crypto
  running key_len encrypt st = record { key_len = key_len; encrypt = encrypt; state = some st }

  abbrev pub start : Cipher → List ℕ → Mac → List (List ℕ) → AesCtrBlockCipherState crypto
  start cipher exp_hmac hmac cs = record {
    done = false;
    cipher = cipher;
    exp_hmac = exp_hmac;
    hmac = hmac;
    reader = chunks cs;
  }

  -- The state after all chunks, in decryption.
  abbrev pub decrypted : Cipher → List ℕ → Mac → List (List ℕ) → AesCtrBlockCipherState crypto
  decrypted cipher exp_hmac hmac cs = record {
    done = true;
    cipher = (apply_keystream cipher (concat cs)).1;
    exp_hmac = exp_hmac;
    hmac = mac_update hmac (concat cs);
    reader = [];
  }

  abbrev pub verdict : List ℕ → Mac → List ℕ → Result IoError (List ℕ)
  verdict exp_hmac hmac plain =
      if mac_finalize hmac =ₜ exp_hmac then ok plain else err hmac_mismatch

  -- The state after all chunks, in encryption, when the ciphertext is `secret`.
  abbrev pub encrypted : Cipher → Mac → List (List ℕ) → AesCtrBlockCipherState crypto
  encrypted cipher hmac cs =
      let (secret, cipher') = apply_keystream cipher (concat cs) in
      record {
        done = true;
        cipher = cipher';
        exp_hmac = mac_finalize (mac_update hmac secret);
        hmac = mac_update hmac secret;
        reader = [];
      }

module _ (crypto : Crypto) (laws : CryptoLaws crypto) where
  open crypto use {Cipher, Mac, cipher_new, apply_keystream, mac_new, mac_update, mac_finalize}
  open laws use {apply-append, apply-nil, length-apply, apply_twice, update-append, update-nil}

  -- One call of `read` that gives bytes.
  read_on :
      (f : ℕ) (c' : AesCtrBlockCipher crypto) (buf out : List ℕ)
      → buf ≢ []
      → (elim buf as (λ _. Option (AesCtrBlockCipher crypto × Result IoError (List ℕ))) [
        | [] ↦ some (c', ok out)
        | b ∷ rest ↦ read_to_end crypto f c' (out ++ b ∷ rest)
      ])
        ≡ read_to_end crypto f c' (out ++ buf)
  read_on f c' [] out h = absurd (h refl)
  read_on f c' (b ∷ rest) out h = refl

  keystream-ne-nil : (s : Cipher) (b : ℕ) (c : List ℕ) → (apply_keystream s (b ∷ c)).0 ≢ []
  keystream-ne-nil s b c h = absurd (omega (arith, length-apply s (b ∷ c), ap length h))

  pub decrypt_run :
      (f k : ℕ) (s : Cipher) (tag : List ℕ) (m : Mac) (cs : List (List ℕ)) (out : List ℕ)
      → AreNonempty cs
      → length cs < f
      → read_to_end crypto f (running crypto k false (start crypto s tag m cs)) out
        ≡ some (
          running crypto k false (decrypted crypto s tag m cs),
          verdict crypto tag (mac_update m (concat cs)) (out ++ (apply_keystream s (concat cs)).0),
        )
  unfolding read_to_end read on_event process
  decrypt_run zero k s tag m cs out h lt = absurd (omega arith)
  decrypt_run (suc f) k s tag m [] out h lt =
      rw (apply-nil s, update-nil m, append-nil out)
        (elim (Bool-cases (mac_finalize m =ₜ tag)) [
          | inl good ↦ rw (good, read_to_end)
          | inr bad ↦ rw (bad, read_to_end)
        ])
  decrypt_run (suc f) k s tag m ([] ∷ cs) out h lt = absurd (h.0 refl)
  decrypt_run (suc f) k s tag m ((b ∷ c) ∷ cs) out h lt =
      let (plain, s') = apply_keystream s (b ∷ c) in
      read_on f (running crypto k false (start crypto s' tag (mac_update m (b ∷ c)) cs)) plain out
        (keystream-ne-nil s b c)
      ∙ decrypt_run f k s' tag (mac_update m (b ∷ c)) cs (out ++ plain) h.1 (omega arith)
      ∙ rw (apply-append s (b ∷ c) (concat cs), update-append m (b ∷ c) (concat cs))
          (rw (append_assoc out plain (apply_keystream s' (concat cs)).0))

  pub encrypt_run :
      (f k : ℕ) (s : Cipher) (tag : List ℕ) (m : Mac) (cs : List (List ℕ)) (out : List ℕ)
      → AreNonempty cs
      → length cs < f
      → read_to_end crypto f (running crypto k true (start crypto s tag m cs)) out
        ≡ some (
          running crypto k true (encrypted crypto s m cs),
          ok (out ++ (apply_keystream s (concat cs)).0),
        )
  unfolding read_to_end read on_event process
  encrypt_run zero k s tag m cs out h lt = absurd (omega arith)
  encrypt_run (suc f) k s tag m [] out h lt = rw (apply-nil s, update-nil m, append-nil out)
  encrypt_run (suc f) k s tag m ([] ∷ cs) out h lt = absurd (h.0 refl)
  encrypt_run (suc f) k s tag m ((b ∷ c) ∷ cs) out h lt =
      let (secret, s') = apply_keystream s (b ∷ c) in
      read_on f (running crypto k true (start crypto s' tag (mac_update m secret) cs)) secret out
        (keystream-ne-nil s b c)
      ∙ encrypt_run f k s' tag (mac_update m secret) cs (out ++ secret) h.1 (omega arith)
      ∙ rw
          (
            apply-append s (b ∷ c) (concat cs),
            update-append m secret (apply_keystream s' (concat cs)).0,
          )
          (rw (append_assoc out secret (apply_keystream s' (concat cs)).0))
