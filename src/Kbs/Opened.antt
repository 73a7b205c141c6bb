-- ===== src/Kbs/Opened.antt =====
-- What it means that an answer of the broker is opened with the client's key.
use coco_guest_components.Common.{
  ℕ, ◌≡◌, some, List, inl, inr, Bool-cases, ok, ok_or, ensure, >>=-eq-ok, ok_or-eq-ok, ensure-eq-ok,
  arith,
}
use coco_guest_components.Text.{Text, bytes, ◌=ₜ◌}
use coco_guest_components.Text.Laws.{text_eq_iff}
use coco_guest_components.External.Broker.{
  JsonCrate, KeyCrate, ProtectedHeader, KbsResponse, PaddingMode, oaep, pkcs1v15,
}
use coco_guest_components.Kbs.Keypair.{
  TeeKey, rsa, ec, padding_name, ecdh_es_a256kw, p256, unmatched_curve, bad_header, bad_base64,
  crypto_failed, rsa_unwrap, epk_member, ec_unwrap, ecdh_unwrap, unwrap_cek, decrypt_response,
}

module _ {json : JsonCrate} (keys : KeyCrate json) where
  open keys use {rsa_decrypt, ec_unwrap_key, url_safe_decode, generate_aad, aes256gcm_decrypt}

  -- The sender's key has a member of this name that is this text.
  abbrev pub HasMember : json.Value → Text → Text → Type 0
  HasMember epk name text =
      (value : json.Value) × (json.get name epk ≡ some value) × (json.as_str value ≡ some text)

  -- A coordinate of the sender's key, which is stored as text.
  abbrev pub HasCoordinate : json.Value → Text → List ℕ → Type 0
  HasCoordinate epk name x =
      (text : Text) × HasMember epk name text × (url_safe_decode text ≡ some x)

  -- The content key that the client's key unwraps, by the algorithm that the header names.
  pub data Unwraps : TeeKey keys → ProtectedHeader json → List ℕ → List ℕ → Type 0 where
    by_rsa :
        {key : keys.RsaKeyPair} {header : ProtectedHeader json} {wrapped cek : List ℕ}
        (mode : PaddingMode)
        → header.alg ≡ padding_name mode
        → rsa_decrypt key mode wrapped ≡ some cek
        → Unwraps (rsa key) header wrapped cek
    by_ecdh :
        {key : keys.EcKeyPair} {header : ProtectedHeader json} {wrapped cek : List ℕ}
        (epk : json.Value) (x y : List ℕ)
        → header.alg ≡ ecdh_es_a256kw
        → header.epk ≡ some epk
        → HasMember epk (bytes "crv") p256
        → HasCoordinate epk (bytes "x") x
        → HasCoordinate epk (bytes "y") y
        → ec_unwrap_key key wrapped x y ≡ some cek
        → Unwraps (ec key) header wrapped cek

  -- The payload is the ciphertext decrypted under that content key, and authenticated together with
  -- the header.
  pub record Opens (key : TeeKey keys) (body : KbsResponse json) (payload : List ℕ) : Type 0 where
    pub cek : List ℕ
    pub unwrapped : Unwraps key body.header body.encrypted_key cek
    pub aad : List ℕ
    pub protected : generate_aad body.header ≡ some aad
    pub decrypted : aes256gcm_decrypt cek body.ciphertext body.iv aad body.tag ≡ some payload

  epk_member-HasMember :
      (epk : json.Value) (name text : Text)
      → epk_member keys name epk ≡ ok text
      → HasMember epk name text
  unfolding epk_member
  epk_member-HasMember epk name text h =
      let (value, got, read) = >>=-eq-ok (ok_or (json.get name epk) bad_header) _ h in
      (value, ok_or-eq-ok _ bad_header got, ok_or-eq-ok _ bad_header read)

  rsa_unwrap-Unwraps :
      (mode : PaddingMode) (key : TeeKey keys) (header : ProtectedHeader json)
      (wrapped cek : List ℕ)
      → header.alg ≡ padding_name mode
      → rsa_unwrap keys mode key wrapped ≡ ok cek
      → Unwraps key header wrapped cek
  unfolding rsa_unwrap
  rsa_unwrap-Unwraps mode (rsa key) header wrapped cek named h =
      Unwraps.by_rsa mode named (ok_or-eq-ok (rsa_decrypt key mode wrapped) crypto_failed h)
  rsa_unwrap-Unwraps mode (ec key) header wrapped cek named h = cc

  ec_unwrap-Unwraps :
      (key : TeeKey keys) (header : ProtectedHeader json) (epk : json.Value) (crv : Text)
      (x y wrapped cek : List ℕ)
      → header.alg ≡ ecdh_es_a256kw
      → header.epk ≡ some epk
      → HasMember epk (bytes "crv") crv
      → HasCoordinate epk (bytes "x") x
      → HasCoordinate epk (bytes "y") y
      → ec_unwrap keys key crv x y wrapped ≡ ok cek
      → Unwraps key header wrapped cek
  unfolding ec_unwrap
  ec_unwrap-Unwraps (rsa key) header epk crv x y wrapped cek named has has_crv has_x has_y h = cc
  ec_unwrap-Unwraps (ec key) header epk crv x y wrapped cek named has has_crv has_x has_y h =
      let (_, checked, h1) = >>=-eq-ok (ensure (crv =ₜ p256) unmatched_curve) _ h in
      let (value, got, read) = has_crv in
      let curve : crv ≡ p256 = (text_eq_iff crv p256).0 (ensure-eq-ok _ unmatched_curve checked) in
      Unwraps.by_ecdh epk x y named has (value, got, cc) has_x has_y
        (ok_or-eq-ok (ec_unwrap_key key wrapped x y) crypto_failed h1)

  ecdh_unwrap-Unwraps :
      (key : TeeKey keys) (header : ProtectedHeader json) (wrapped cek : List ℕ)
      → header.alg ≡ ecdh_es_a256kw
      → ecdh_unwrap keys key header wrapped ≡ ok cek
      → Unwraps key header wrapped cek
  unfolding ecdh_unwrap
  ecdh_unwrap-Unwraps key header wrapped cek named h =
      let (epk, has, h1) = >>=-eq-ok (ok_or header.epk bad_header) _ h in
      let (crv, has_crv, h2) = >>=-eq-ok (epk_member keys (bytes "crv") epk) _ h1 in
      let (x_text, has_x, h3) = >>=-eq-ok (epk_member keys (bytes "x") epk) _ h2 in
      let (x, x_read, h4) = >>=-eq-ok (ok_or (url_safe_decode x_text) bad_base64) _ h3 in
      let (y_text, has_y, h5) = >>=-eq-ok (epk_member keys (bytes "y") epk) _ h4 in
      let (y, y_read, h6) = >>=-eq-ok (ok_or (url_safe_decode y_text) bad_base64) _ h5 in
      ec_unwrap-Unwraps key header epk crv x y wrapped cek named (ok_or-eq-ok _ bad_header has)
        (epk_member-HasMember epk (bytes "crv") crv has_crv)
        (x_text, epk_member-HasMember epk (bytes "x") x_text has_x, ok_or-eq-ok _ bad_base64 x_read)
        (y_text, epk_member-HasMember epk (bytes "y") y_text has_y, ok_or-eq-ok _ bad_base64 y_read)
        h6

  unwrap_cek-Unwraps :
      (key : TeeKey keys) (header : ProtectedHeader json) (wrapped cek : List ℕ)
      → unwrap_cek keys key header wrapped ≡ ok cek
      → Unwraps key header wrapped cek
  unfolding unwrap_cek
  unwrap_cek-Unwraps key header wrapped cek h =
      elim (Bool-cases (header.alg =ₜ padding_name pkcs1v15)) [
        | inl old ↦
            rsa_unwrap-Unwraps pkcs1v15 key header wrapped cek ((text_eq_iff _ _).0 old)
              (rw old at h)
        | inr not_old ↦ elim (Bool-cases (header.alg =ₜ padding_name oaep)) [
          | inl new ↦
              rsa_unwrap-Unwraps oaep key header wrapped cek ((text_eq_iff _ _).0 new)
                (rw (not_old, new) at h)
          | inr not_rsa ↦ elim (Bool-cases (header.alg =ₜ ecdh_es_a256kw)) [
            | inl curve ↦
                ecdh_unwrap-Unwraps key header wrapped cek ((text_eq_iff _ _).0 curve)
                  (rw (not_old, not_rsa, curve) at h)
            | inr unknown ↦ absurd (ground (arith, not_old, not_rsa, unknown, h))
          ]
        ]
      ]

  -- An answer that `decrypt_response` decrypts is opened with the key.
  pub decrypt_response-Opens :
      (key : TeeKey keys) (body : KbsResponse json) (payload : List ℕ)
      → decrypt_response keys key body ≡ ok payload
      → Opens key body payload
  unfolding decrypt_response
  decrypt_response-Opens key body payload h =
      let (cek, unwrapped, h1) =
        >>=-eq-ok (unwrap_cek keys key body.header body.encrypted_key) _ h in
      let (aad, protected, h2) = >>=-eq-ok (ok_or (generate_aad body.header) crypto_failed) _ h1 in
      record {
        cek = cek;
        unwrapped = unwrap_cek-Unwraps key body.header body.encrypted_key cek unwrapped;
        aad = aad;
        protected = ok_or-eq-ok _ crypto_failed protected;
        decrypted = ok_or-eq-ok _ crypto_failed h2;
      }
