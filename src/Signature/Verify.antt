-- ===== src/Signature/Verify.antt =====
-- image-rs/src/signature/policy/simple/verify.rs: a signed message is verified by a key of the
-- ring whose identifier is the one that the signature records.
pub mod Laws
use coco_guest_components.Common.{
  ℕ, ◌-◌, ◌==◌, Option, none, some, List, [], ◌∷◌, length, drop, if◌then◌else◌, Result, Checked, ok,
  err, ensure, ok_or, ◌>>=◌, ◌>>◌, get_or,
}
use coco_guest_components.Text.{Text, ◌=ₜ◌, is_empty}
use coco_guest_components.Text.Utf8.{from_utf8}
use coco_guest_components.External.OpenPgp.{OpenPgp}
use coco_guest_components.Signature.Failure.{
  Failure, bad_keyring, bad_signature, wrong_key_length, wrong_issuer_length, key_id_mismatch,
  no_key_verifies, no_literal, bad_payload,
}
use coco_guest_components.Signature.Payload.{SigPayload}

abbrev pub gpg_key_id_bytes_length : ℕ
gpg_key_id_bytes_length = 20

abbrev pub gpg_key_id_suffix_bytes_length_in_sig : ℕ
gpg_key_id_suffix_bytes_length_in_sig = 8

pub record SigKeyIds : Type 0 where
  pub trusted_key_id : List ℕ
  pub sig_info_key_id : List ℕ

unfoldable pub validate : SigKeyIds → Checked Failure
validate ids = do
  ensure (length ids.trusted_key_id == gpg_key_id_bytes_length) wrong_key_length
  ensure (length ids.sig_info_key_id == gpg_key_id_suffix_bytes_length_in_sig) wrong_issuer_length
  ensure
      (ids.sig_info_key_id
        =ₜ drop (gpg_key_id_bytes_length - gpg_key_id_suffix_bytes_length_in_sig)
            ids.trusted_key_id)
      key_id_mismatch

module _ (pgp : OpenPgp) (payload_of : Text → Option SigPayload) where
  open pgp use {
    PacketPile, Packet, PublicKey, Signature, from_bytes, descendants, public_key, one_pass_issuer,
    literal_body, signature, verify_signature, fingerprint,
  }

  -- One packet of the keyring.
  unfoldable pub try_packet : Option Signature → Packet → SigKeyIds → Result Failure SigKeyIds
  try_packet sig packet ids = elim (public_key packet) [
    | none ↦ ok ids
    | some key ↦ elim sig [
      | none ↦ ok ids
      | some s ↦
          if verify_signature s key
          then (do
            let ids' = record ids { trusted_key_id = fingerprint key }
            validate ids'
            ok ids')
          else ok ids
    ]
  ]

  -- `for packet in keyring_iter`
  unfoldable pub try_keys : Option Signature → List Packet → SigKeyIds → Result Failure SigKeyIds
  try_keys sig [] ids = ok ids
  try_keys sig (packet ∷ rest) ids = do ids' ← try_packet sig packet ids; try_keys sig rest ids'

  -- The payload is the literal packet, as UTF-8 and then JSON.
  unfoldable pub extract_payload : PacketPile → Result Failure SigPayload
  extract_payload pile = do
    body ← ok_or (literal_body pile) no_literal
    body_message ← ok_or (from_utf8 body) bad_payload
    ok_or (payload_of body_message) bad_payload

  unfoldable pub verify_sig_and_extract_payload : List ℕ → List ℕ → Result Failure SigPayload
  verify_sig_and_extract_payload pubkey_ring sig = do
    keyring ← ok_or (from_bytes pubkey_ring) bad_keyring
    pile ← ok_or (from_bytes sig) bad_signature
    ids ←
        try_keys (signature pile) (descendants keyring)
          (record { trusted_key_id = []; sig_info_key_id = get_or [] (one_pass_issuer pile) })
    if is_empty ids.trusted_key_id then err no_key_verifies else extract_payload pile
