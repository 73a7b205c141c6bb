-- ===== src/Signature/Verify/Laws.antt =====
-- The keys that a payload is given for.
use coco_guest_components.Common.{
  ℕ, ◌≡◌, refl, ap, ◌∙◌, ◌⊎◌, inl, inr, true, Option, some, List, [], ◌∷◌, Memᴰ, length, drop,
  get_or, ok, err, >>=-eq-ok, ok_or-eq-ok, Option-cases, Bool-cases, arith, if◌then◌else◌,
}
use coco_guest_components.Text.{Text, is_empty}
use coco_guest_components.Text.Laws.{text_eq_iff}
use coco_guest_components.Text.Utf8.{from_utf8, from_utf8_sound}
use coco_guest_components.External.OpenPgp.{OpenPgp}
use coco_guest_components.Signature.Failure.{bad_payload, no_key_verifies}
use coco_guest_components.Signature.Payload.{SigPayload}
use coco_guest_components.Signature.Verify.{
  SigKeyIds, validate, try_packet, try_keys, extract_payload, verify_sig_and_extract_payload,
}

-- The recorded issuer is the last eight bytes of a twenty byte fingerprint.
pub record Issued (issuer fingerprint : List ℕ) : Type 0 where
  pub key_length : length fingerprint ≡ 20
  pub issuer_length : length issuer ≡ 8
  pub suffix : issuer ≡ drop 12 fingerprint

validate_sound :
    (ids : SigKeyIds) → validate ids ≡ ok tt → Issued ids.sig_info_key_id ids.trusted_key_id
unfolding validate
validate_sound ids h = ground (arith, text_eq_iff ids.sig_info_key_id (drop 12 ids.trusted_key_id))

module _ (pgp : OpenPgp) (payload_of : Text → Option SigPayload) where
  open pgp use {
    PacketPile, Packet, PublicKey, Signature, from_bytes, descendants, public_key, one_pass_issuer,
    literal_body, signature, verify_signature, fingerprint,
  }

  -- A key of the ring verifies the signature, and the issuer that the signature records is its.
  pub record TrustedKey (issuer : List ℕ) (sig : Option Signature) (ring : List Packet)
      : Type 0 where
    pub packet : Packet
    pub listed : Memᴰ packet ring
    pub key : PublicKey
    pub is_key : public_key packet ≡ some key
    pub signed : Signature
    pub is_signed : sig ≡ some signed
    pub verifies : verify_signature signed key ≡ true
    pub issued : Issued issuer (fingerprint key)

  TrustedKey-tail :
      {issuer : List ℕ} {sig : Option Signature} {packet : Packet} {ring : List Packet}
      → TrustedKey issuer sig ring
      → TrustedKey issuer sig (packet ∷ ring)
  TrustedKey-tail t = record {
    packet = t.packet;
    listed = Memᴰ.tail t.listed;
    key = t.key;
    is_key = t.is_key;
    signed = t.signed;
    is_signed = t.is_signed;
    verifies = t.verifies;
    issued = t.issued;
  }

  -- What one packet does to the identifiers: nothing, or it is a trusted key.
  try_packet_sound :
      (sig : Option Signature) (p : Packet) (ids ids' : SigKeyIds) (ring : List Packet)
      → try_packet pgp payload_of sig p ids ≡ ok ids'
      → (ids' ≡ ids)
        ⊎ ((ids'.sig_info_key_id ≡ ids.sig_info_key_id)
            × TrustedKey ids.sig_info_key_id sig (p ∷ ring))
  unfolding try_packet
  try_packet_sound sig p ids ids' ring h = elim (Option-cases (public_key p)) [
    | inl other ↦ inl (ground (arith, other))
    | inr (key, is_key) ↦ elim (Option-cases sig) [
      | inl unsigned ↦ inl (ground (arith, is_key, unsigned))
      | inr (s, is_signed) ↦ elim (Bool-cases (verify_signature s key)) [
        | inr fails ↦ inl (ground (arith, is_key, is_signed, fails))
        | inl verifies ↦
            let ids'' : SigKeyIds = record ids { trusted_key_id = fingerprint key } in
            let checked : (validate ids'' ≡ ok tt) × (ids' ≡ ids'') =
              ground (arith, is_key, is_signed, verifies) in
            inr (
              ap (λ (i : SigKeyIds). i.sig_info_key_id) checked.1,
              record {
                packet = p;
                listed = Memᴰ.head refl;
                key = key;
                is_key = is_key;
                signed = s;
                is_signed = is_signed;
                verifies = verifies;
                issued = validate_sound ids'' checked.0;
              },
            )
      ]
    ]
  ]

  try_keys_sound :
      (sig : Option Signature) (ring : List Packet) (ids ids' : SigKeyIds)
      → try_keys pgp payload_of sig ring ids ≡ ok ids'
      → (ids' ≡ ids) ⊎ TrustedKey ids.sig_info_key_id sig ring
  unfolding try_keys
  try_keys_sound sig [] ids ids' h = inl (ground arith)
  try_keys_sound sig (p ∷ ring) ids ids' h =
      let (mid, first, rest) =
        >>=-eq-ok (try_packet pgp payload_of sig p ids) (try_keys pgp payload_of sig ring) h in
      elim (try_packet_sound sig p ids mid ring first) [
        | inr (_, t) ↦ inr t
        | inl same ↦ elim (try_keys_sound sig ring mid ids' rest) [
          | inl kept ↦ inl (kept ∙ same)
          | inr t ↦ inr (TrustedKey-tail (rw same at t))
        ]
      ]

module _ (pgp : OpenPgp) (payload_of : Text → Option SigPayload) where
  -- What the message's literal packet holds.
  abbrev pub Claims : pgp.PacketPile → SigPayload → Type 0
  Claims pile payload =
      (body : List ℕ) × (pgp.literal_body pile ≡ some body)
      × (from_utf8 body ≡ some body)
      × (payload_of body ≡ some payload)

  extract_payload_sound :
      (pile : pgp.PacketPile) (payload : SigPayload)
      → extract_payload pgp payload_of pile ≡ ok payload
      → Claims pile payload
  unfolding extract_payload
  extract_payload_sound pile payload h = elim (Option-cases (pgp.literal_body pile)) [
    | inl bad ↦ absurd (ground (arith, bad))
    | inr (body, e) ↦ elim (Option-cases (from_utf8 body)) [
      | inl bad ↦ absurd (ground (arith, e, bad))
      | inr (t, f) ↦
          let same = from_utf8_sound body t f in
          (
            body,
            e,
            f ∙ ap some same,
            ok_or-eq-ok (payload_of body) bad_payload (ground (arith, e, f, same)),
          )
    ]
  ]

  -- A payload that is accepted: both inputs parse, a key of the ring is trusted for the message.
  pub record Verified (pubkey_ring sig : List ℕ) (payload : SigPayload) : Type 0 where
    pub ring : pgp.PacketPile
    pub pile : pgp.PacketPile
    pub ring_parses : pgp.from_bytes pubkey_ring ≡ some ring
    pub sig_parses : pgp.from_bytes sig ≡ some pile
    pub trusted :
        TrustedKey pgp payload_of
          (get_or [] (pgp.one_pass_issuer pile))
          (pgp.signature pile)
          (pgp.descendants ring)
    pub claims : Claims pile payload

  abbrev no_ids : pgp.PacketPile → SigKeyIds
  no_ids pile = record {
    trusted_key_id = [];
    sig_info_key_id = get_or [] (pgp.one_pass_issuer pile);
  }

-- A payload that is returned stands in the message as UTF-8 and JSON, and a key of the ring verifies
-- the message's signature, with the message's issuer as the end of its twenty byte fingerprint.
pub verify_sig_sound :
    (pgp : OpenPgp) (payload_of : Text → Option SigPayload) (pubkey_ring sig : List ℕ)
    (payload : SigPayload)
    → verify_sig_and_extract_payload pgp payload_of pubkey_ring sig ≡ ok payload
    → Verified pgp payload_of pubkey_ring sig payload
unfolding verify_sig_and_extract_payload
verify_sig_sound pgp payload_of pubkey_ring sig payload h =
    elim (Option-cases (pgp.from_bytes pubkey_ring)) [
      | inl bad ↦ absurd (ground (arith, bad))
      | inr (ring, e) ↦ elim (Option-cases (pgp.from_bytes sig)) [
        | inl bad ↦ absurd (ground (arith, e, bad))
        | inr (pile, f) ↦
            let (ids, tried, rest) =
              >>=-eq-ok
                (try_keys pgp payload_of (pgp.signature pile) (pgp.descendants ring)
                  (no_ids pgp payload_of pile))
                (λ (ids : SigKeyIds).
                  if is_empty ids.trusted_key_id
                  then err no_key_verifies
                  else extract_payload pgp payload_of pile)
                (rw (e, f) at h) in
            elim (try_keys_sound pgp payload_of (pgp.signature pile) (pgp.descendants ring)
              (no_ids pgp payload_of pile) ids tried) [
                | inl untouched ↦ absurd (ground (arith, untouched))
                | inr trusted ↦ record {
                  ring = ring;
                  pile = pile;
                  ring_parses = e;
                  sig_parses = f;
                  trusted = trusted;
                  claims = extract_payload_sound pgp payload_of pile payload (ground arith);
                }
              ]
      ]
    ]
