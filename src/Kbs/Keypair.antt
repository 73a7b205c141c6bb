-- ===== src/Kbs/Keypair.antt =====
-- attestation-agent/kbs_protocol/src/keypair.rs: the key pair of the client, which the broker's
-- answers are encrypted to.
use coco_guest_components.Common.{
  ℕ, List, if◌then◌else◌, Result, ok, err, ok_or, ensure, ◌>>=◌, ◌>>◌,
}
use coco_guest_components.Text.{Text, bytes, ◌=ₜ◌}
use coco_guest_components.External.Broker.{
  JsonCrate, KeyCrate, ProtectedHeader, KbsResponse, PaddingMode, oaep, pkcs1v15, TeePubKey,
  rsa_key, ec_key,
}

pub data KeyError : Type 0 where
  unmatched_key unmatched_curve bad_header bad_base64 unsupported_algorithm crypto_failed : KeyError

abbrev pub padding_name : PaddingMode → Text
padding_name oaep = bytes "RSA-OAEP-256"
padding_name pkcs1v15 = bytes "RSA1_5"

-- `KeyWrapAlgorithm::EcdhEsA256Kw` and `Curve::P256`
abbrev pub ecdh_es_a256kw : Text
ecdh_es_a256kw = bytes "ECDH-ES+A256KW"

abbrev pub p256 : Text
p256 = bytes "P-256"

module _ {json : JsonCrate} (keys : KeyCrate json) where
  open keys use {
    RsaKeyPair, EcKeyPair, rsa_n, rsa_e, rsa_decrypt, ec_x, ec_y, ec_unwrap_key, url_safe_encode,
    url_safe_decode, generate_aad, aes256gcm_decrypt,
  }

  pub data TeeKey : Type 0 where
    rsa : RsaKeyPair → TeeKey
    ec : EcKeyPair → TeeKey

  unfoldable pub export_pubkey : TeeKey → Result KeyError TeePubKey
  export_pubkey (rsa key) =
      ok (rsa_key (padding_name oaep) (url_safe_encode (rsa_n key)) (url_safe_encode (rsa_e key)))
  export_pubkey (ec key) = do
    x ← ok_or (ec_x key) crypto_failed
    y ← ok_or (ec_y key) crypto_failed
    ok (ec_key p256 ecdh_es_a256kw (url_safe_encode x) (url_safe_encode y))

  unfoldable pub rsa_unwrap : PaddingMode → TeeKey → List ℕ → Result KeyError (List ℕ)
  rsa_unwrap mode (rsa key) wrapped_cek = ok_or (rsa_decrypt key mode wrapped_cek) crypto_failed
  rsa_unwrap mode (ec key) wrapped_cek = err unmatched_key

  -- A member of `epk` that is a text.
  unfoldable pub epk_member : Text → json.Value → Result KeyError Text
  epk_member name epk = do
    value ← ok_or (json.get name epk) bad_header
    ok_or (json.as_str value) bad_header

  unfoldable pub ec_unwrap : TeeKey → Text → List ℕ → List ℕ → List ℕ → Result KeyError (List ℕ)
  ec_unwrap (rsa key) crv x y wrapped_cek = err unmatched_key
  ec_unwrap (ec key) crv x y wrapped_cek = do
    ensure (crv =ₜ p256) unmatched_curve
    ok_or (ec_unwrap_key key wrapped_cek x y) crypto_failed

  -- The branch of ECDH-ES, which reads the sender's key out of the header.
  unfoldable pub ecdh_unwrap : TeeKey → ProtectedHeader json → List ℕ → Result KeyError (List ℕ)
  unfolding ec_unwrap epk_member
  ecdh_unwrap key header wrapped_cek = do
    epk ← ok_or header.epk bad_header
    crv ← epk_member (bytes "crv") epk
    x_text ← epk_member (bytes "x") epk
    x ← ok_or (url_safe_decode x_text) bad_base64
    y_text ← epk_member (bytes "y") epk
    y ← ok_or (url_safe_decode y_text) bad_base64
    ec_unwrap key crv x y wrapped_cek

  unfoldable pub unwrap_cek : TeeKey → ProtectedHeader json → List ℕ → Result KeyError (List ℕ)
  unfolding rsa_unwrap ecdh_unwrap
  unwrap_cek key header wrapped_cek =
      if header.alg =ₜ padding_name pkcs1v15
      then rsa_unwrap pkcs1v15 key wrapped_cek
      else if header.alg =ₜ padding_name oaep
      then rsa_unwrap oaep key wrapped_cek
      else if header.alg =ₜ ecdh_es_a256kw
      then ecdh_unwrap key header wrapped_cek
      else err unsupported_algorithm

  unfoldable pub decrypt_response : TeeKey → KbsResponse json → Result KeyError (List ℕ)
  decrypt_response key response = do
    cek ← unwrap_cek key response.header response.encrypted_key
    aad ← ok_or (generate_aad response.header) crypto_failed
    ok_or (aes256gcm_decrypt cek response.ciphertext response.iv aad response.tag) crypto_failed
