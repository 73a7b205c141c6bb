-- ===== src/Ocicrypt/Cipher/Authentic.antt =====
-- What decryption accepts.
use coco_guest_components.Common.{
  ℕ, ◌<◌, ◌≡◌, refl, sym, ap, ◌∙◌, ◌≢◌, ◌⊎◌, inl, inr, true, false, not, ◌&&◌, ◌==◌, Bool-cases,
  Option, some, List, [], concat, length, ok, err, ensure, ok_or, >>=-eq-ok, ok_or-eq-ok,
  ok-injective, arith,
}
use coco_guest_components.Text.{◌=ₜ◌, is_empty}
use coco_guest_components.Text.Laws.{text_eq_iff}
use coco_guest_components.External.Crypto.{Crypto, CryptoLaws}
use coco_guest_components.Ocicrypt.Options.{LayerBlockCipherOptions, get_opt}
use coco_guest_components.Ocicrypt.Cipher.{
  hmac_mismatch, unsupported_cipher, invalid_key_length, no_hmac, mac_failed, aes256ctr,
  aes256_key_size, AesCtrBlockCipher, nonce_key, choose_nonce, init, handler_decrypt, read_to_end,
}
use coco_guest_components.Ocicrypt.Cipher.Laws.{
  chunks, AreNonempty, running, start, decrypted, verdict, decrypt_run,
}

module _ (crypto : Crypto) (laws : CryptoLaws crypto) where
  open crypto use {Mac, cipher_new, apply_keystream, mac_new, mac_update, mac_finalize}

  -- A decrypting reader is set up with the layer's key, some nonce and the stored tag.
  started :
      (c c' : AesCtrBlockCipher crypto) (cs : List (List ℕ)) (opts opts' : LayerBlockCipherOptions)
      (random : Option (List ℕ))
      → handler_decrypt crypto c (chunks cs) opts random ≡ ok (c', opts')
      → (m : Mac) × (nonce : List ℕ) × (mac_new opts.private.symmetric_key ≡ some m)
        × (c'
            ≡ running crypto c.key_len false
                (start crypto (cipher_new opts.private.symmetric_key nonce) opts.public.hmac m cs))
  unfolding handler_decrypt init
  started c c' cs opts opts' random h =
      let key = opts.private.symmetric_key in
      let (_, _, h1) =
        >>=-eq-ok (ensure (opts.public.cipher_type =ₜ aes256ctr) unsupported_cipher) _ h in
      let (_, _, h2) = >>=-eq-ok (ensure (length key == aes256_key_size) invalid_key_length) _ h1 in
      let (_, _, h3) = >>=-eq-ok (ensure (not (true && is_empty opts.public.hmac)) no_hmac) _ h2 in
      let (nonce, _, h4) = >>=-eq-ok (choose_nonce crypto (get_opt opts nonce_key) random) _ h3 in
      let (m, em, h5) = >>=-eq-ok (ok_or (mac_new key) mac_failed) _ h4 in
      (m, nonce, ok_or-eq-ok (mac_new key) mac_failed em, sym (ap (λ p. p.0) (ok-injective h5)))

  verdict-cases :
      (tag plain : List ℕ) (m : Mac)
      → ((mac_finalize m ≡ tag) × (verdict crypto tag m plain ≡ ok plain))
        ⊎ ((mac_finalize m ≢ tag) × (verdict crypto tag m plain ≡ err hmac_mismatch))
  verdict-cases tag plain m = elim (Bool-cases (mac_finalize m =ₜ tag)) [
    | inl same ↦ inl ((text_eq_iff (mac_finalize m) tag).0 same, rw same refl)
    | inr other ↦ inr (
      λ e. absurd ((ground (arith, (text_eq_iff (mac_finalize m) tag).1 e, other))),
      rw other refl,
    )
  ]

  -- A reader that `decrypt` set up on chunks that are not empty is read to its end in one of two ways:
  -- the MAC of the whole ciphertext under the layer's key is the stored one, and some plaintext comes
  -- out, or it is not, and the result is the error of a mismatch.
  pub decrypt_authentic :
      (c c' : AesCtrBlockCipher crypto) (cs : List (List ℕ)) (opts opts' : LayerBlockCipherOptions)
      (random : Option (List ℕ)) (f : ℕ)
      → handler_decrypt crypto c (chunks cs) opts random ≡ ok (c', opts')
      → AreNonempty cs
      → length cs < f
      → (finished : AesCtrBlockCipher crypto) × (m : Mac) × (plain : List ℕ) × (mac_new
            opts.private.symmetric_key
          ≡ some m)
        × (((mac_finalize (mac_update m (concat cs)) ≡ opts.public.hmac)
              × (read_to_end crypto f c' [] ≡ some (finished, ok plain))
              × (length plain ≡ length (concat cs)))
            ⊎ ((mac_finalize (mac_update m (concat cs)) ≢ opts.public.hmac)
                × (read_to_end crypto f c' [] ≡ some (finished, err hmac_mismatch))))
  decrypt_authentic c c' cs opts opts' random f h ne lt =
      let (m, nonce, em, ec) = started c c' cs opts opts' random h in
      let tag = opts.public.hmac in
      let s = cipher_new opts.private.symmetric_key nonce in
      let plain = (apply_keystream s (concat cs)).0 in
      let final = running crypto c.key_len false (decrypted crypto s tag m cs) in
      let run =
        ap (λ r. read_to_end crypto f r []) ec
        ∙ decrypt_run crypto laws f c.key_len s tag m cs [] ne lt in
      (
        final,
        m,
        plain,
        em,
        elim (verdict-cases tag plain (mac_update m (concat cs))) [
          | inl (e, v) ↦ inl (e, run ∙ ap (λ r. some (final, r)) v, laws.length-apply s (concat cs))
          | inr (e, v) ↦ inr (e, run ∙ ap (λ r. some (final, r)) v)
        ],
      )
