-- ===== src/Signature/Simple/Laws.antt =====
-- What an image that simple signing allows has.
use coco_guest_components.Common.{
  ℕ, ◌≡◌, refl, ◌↔◌, inl, inr, Option, List, [], ◌∷◌, Memᴰ, get_or, ok, ensure, >>=-eq-ok,
  ensure-eq-ok, Result-cases, arith,
}
use coco_guest_components.Text.{◌=ₜ◌}
use coco_guest_components.Text.Laws.{text_eq_iff}
use coco_guest_components.Signature.Env.{Env}
use coco_guest_components.Signature.Failure.{unknown_key_type}
use coco_guest_components.Signature.Image.{Image}
use coco_guest_components.Signature.Image.Digest.{print}
use coco_guest_components.Signature.RefMatch.{PolicyReqMatchType, match_repo_digest_or_exact}
use coco_guest_components.Signature.RefMatch.Laws.{Fits}
use coco_guest_components.Signature.Policy.{SimpleParameters}
use coco_guest_components.Signature.Payload.{
  SigPayload, manifest_digest, docker_reference, validate_signed_docker_reference,
}
use coco_guest_components.Signature.Payload.Laws.{validate_reference_iff, validate_digest_iff}
use coco_guest_components.Signature.Verify.{verify_sig_and_extract_payload}
use coco_guest_components.Signature.Verify.Laws.{Verified, verify_sig_sound}
use coco_guest_components.Signature.Sigstore.{SigstoreConfig}
use coco_guest_components.Signature.Simple.{
  judge_single_signature, pubkey_ring_of, get_signatures, judge_all, simple_signing_allows_image,
  gpg_keys,
}

module _ (env : Env) where
  -- A signature that a key of the ring made, for this manifest digest and a reference that fits.
  pub record SignedFor (image : Image env.oci) (rule : PolicyReqMatchType) (ring sig : List ℕ)
      : Type 0 where
    pub payload : SigPayload
    pub verified : Verified env.pgp env.payload_of ring sig payload
    pub fits : Fits env.oci rule image.reference (docker_reference payload)
    pub digest : manifest_digest payload ≡ print image.manifest_digest

  judge_sound :
      (image : Image env.oci) (identity : Option PolicyReqMatchType) (ring sig : List ℕ)
      → judge_single_signature env image identity ring sig ≡ ok tt
      → SignedFor image (get_or match_repo_digest_or_exact identity) ring sig
  unfolding judge_single_signature
  judge_sound image identity ring sig h =
      let (payload, verified, rest) =
        >>=-eq-ok (verify_sig_and_extract_payload env.pgp env.payload_of ring sig) _ h in
      let (_, refers, binds) =
        >>=-eq-ok
          (validate_signed_docker_reference env.oci payload image.reference
            (get_or match_repo_digest_or_exact identity))
          _ rest in
      record {
        payload = payload;
        verified = verify_sig_sound env.pgp env.payload_of ring sig payload verified;
        fits = (validate_reference_iff env.oci payload image.reference _).0 refers;
        digest = (validate_digest_iff payload _).0 binds;
      }

  judge_all_sound :
      (image : Image env.oci) (identity : Option PolicyReqMatchType) (ring : List ℕ)
      (sigs : List (List ℕ))
      → judge_all env image identity ring sigs ≡ ok tt
      → (sig : List ℕ) × Memᴰ sig sigs
        × (judge_single_signature env image identity ring sig ≡ ok tt)
  unfolding judge_all
  judge_all_sound image identity ring [] h = absurd (ground arith)
  judge_all_sound image identity ring (sig ∷ rest) h =
      elim (Result-cases (judge_single_signature env image identity ring sig)) [
        | inl (_, accepted) ↦ (sig, Memᴰ.head refl, accepted)
        | inr (_, refused) ↦
            let (s, listed, good) =
              judge_all_sound image identity ring rest (ground (arith, refused)) in
            (s, Memᴰ.tail listed, good)
      ]

  judge_all_complete :
      (image : Image env.oci) (identity : Option PolicyReqMatchType) (ring : List ℕ) {sig : List ℕ}
      {sigs : List (List ℕ)}
      → Memᴰ sig sigs
      → judge_single_signature env image identity ring sig ≡ ok tt
      → judge_all env image identity ring sigs ≡ ok tt
  unfolding judge_all
  judge_all_complete image identity ring (Memᴰ.head e) good = ground (arith, e)
  judge_all_complete image identity ring (Memᴰ.tail m) good =
      ground (arith, judge_all_complete image identity ring m good)

  abbrev rule_of : SimpleParameters → PolicyReqMatchType
  rule_of parameters = get_or match_repo_digest_or_exact parameters.signed_identity

  -- A signature that is found for the image and made for it by a key of the configured ring.
  pub record SimplySigned (config : Option SigstoreConfig) (parameters : SimpleParameters)
      (image : Image env.oci) : Type 0 where
    pub gpg : parameters.key_type ≡ gpg_keys
    pub ring : List ℕ
    pub ring_of : pubkey_ring_of env parameters.key_path parameters.key_data ≡ ok ring
    pub sigs : List (List ℕ)
    pub found : get_signatures env config image ≡ ok sigs
    pub sig : List ℕ
    pub listed : Memᴰ sig sigs
    pub accepted : judge_single_signature env image parameters.signed_identity ring sig ≡ ok tt

  pub SimplySigned-SignedFor :
      {config : Option SigstoreConfig} {parameters : SimpleParameters} {image : Image env.oci}
      (s : SimplySigned config parameters image)
      → SignedFor image (rule_of parameters) s.ring s.sig
  SimplySigned-SignedFor {parameters} {image} s =
      judge_sound image parameters.signed_identity s.ring s.sig s.accepted

-- Simple signing allows an image exactly if the key type is GPG, the key ring and the signatures can
-- be read, and one of these signatures is accepted on its own; the others do not matter.
pub simple_signing_iff :
    (env : Env) (config : Option SigstoreConfig) (parameters : SimpleParameters)
    (image : Image env.oci)
    → (simple_signing_allows_image env config parameters image ≡ ok tt)
      ↔ SimplySigned env config parameters image
unfolding simple_signing_allows_image
simple_signing_iff env config parameters image = (
  λ h.
      let (_, typed, h1) =
        >>=-eq-ok (ensure (parameters.key_type =ₜ gpg_keys) unknown_key_type) _ h in
      let (ring, ring_of, h2) =
        >>=-eq-ok (pubkey_ring_of env parameters.key_path parameters.key_data) _ h1 in
      let (sigs, found, h3) = >>=-eq-ok (get_signatures env config image) _ h2 in
      let (sig, listed, accepted) =
        judge_all_sound env image parameters.signed_identity ring sigs h3 in
      record {
        gpg = (text_eq_iff _ _).0 (ensure-eq-ok _ _ typed);
        ring = ring;
        ring_of = ring_of;
        sigs = sigs;
        found = found;
        sig = sig;
        listed = listed;
        accepted = accepted;
      },
  λ s.
      rw ((text_eq_iff _ _).1 s.gpg, s.ring_of, s.found)
        (judge_all_complete env image parameters.signed_identity s.ring s.listed s.accepted),
)
