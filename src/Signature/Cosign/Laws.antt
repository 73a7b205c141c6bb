-- ===== src/Signature/Cosign/Laws.antt =====
-- What an image that cosign allows has.
use coco_guest_components.Common.{
  ℕ, ◌≡◌, refl, sym, ◌⊎◌, inl, inr, true, Option, none, some, List, [], ◌∷◌, map, All, ok, ensure,
  ok_or, >>=-eq-ok, ok_or-eq-ok, ensure-eq-ok, ok-injective,
}
use coco_guest_components.Text.{Text}
use coco_guest_components.External.Sigstore.{SimpleSigning}
use coco_guest_components.Signature.Env.{Env}
use coco_guest_components.Signature.Image.{Image}
use coco_guest_components.Signature.Image.Digest.{print}
use coco_guest_components.Signature.RefMatch.{
  PolicyReqMatchType, match_exact, match_repo_digest_or_exact, match_repository, exact_reference,
  exact_repository, remap_identity,
}
use coco_guest_components.Signature.RefMatch.Laws.{Fits}
use coco_guest_components.Signature.Policy.{CosignParameters}
use coco_guest_components.Signature.Payload.{
  SigPayload, from_simple_signing, validate_signed_docker_manifest_digest,
}
use coco_guest_components.Signature.Payload.Laws.{validate_reference_iff, validate_digest_iff}
use coco_guest_components.Signature.Cosign.{
  payload_of_layer, check_reference_rule_types, cosign_key, verify_signature_and_get_payload,
  validate_identity, check_payloads, cosign_allows_image,
}

-- The rules that cosign parameters may name.
abbrev pub IsRepositoryRule : Option PolicyReqMatchType → Type 0
IsRepositoryRule none = Unit
IsRepositoryRule (some rule) =
    (rule ≡ match_repository) ⊎ ((name : Text) × (rule ≡ exact_repository name))

rule_types_sound :
    (identity : Option PolicyReqMatchType)
    → check_reference_rule_types identity ≡ ok tt
    → IsRepositoryRule identity
unfolding check_reference_rule_types
rule_types_sound none h = tt
rule_types_sound (some match_repository) h = inl refl
rule_types_sound (some (exact_repository name)) h = inr (name, refl)
rule_types_sound (some match_exact) h = cc
rule_types_sound (some match_repo_digest_or_exact) h = cc
rule_types_sound (some (exact_reference r)) h = cc
rule_types_sound (some (remap_identity p s)) h = cc

module _ (env : Env) where
  -- What was signed is for the image's manifest, and for its reference where a rule is given.
  abbrev pub StandsFor : Option PolicyReqMatchType → Image env.oci → SimpleSigning → Type 0
  StandsFor none image signed = signed.docker_manifest_digest ≡ print image.manifest_digest
  StandsFor (some rule) image signed =
      Fits env.oci rule image.reference signed.docker_reference
      × (signed.docker_manifest_digest ≡ print image.manifest_digest)

  check_payload_sound :
      (identity : Option PolicyReqMatchType) (image : Image env.oci) (signed : SimpleSigning)
      → validate_identity env identity (from_simple_signing signed) image ≡ ok tt
      → validate_signed_docker_manifest_digest
          (from_simple_signing signed)
          (print image.manifest_digest)
        ≡ ok tt
      → StandsFor identity image signed
  unfolding validate_identity from_simple_signing
  check_payload_sound none image signed h k =
      (validate_digest_iff (from_simple_signing signed) _).0 k
  check_payload_sound (some rule) image signed h k = (
    (validate_reference_iff env.oci (from_simple_signing signed) image.reference rule).0 h,
    (validate_digest_iff (from_simple_signing signed) _).0 k,
  )

  check_payloads_sound :
      (identity : Option PolicyReqMatchType) (image : Image env.oci)
      (layers : List env.cosign.Layer)
      → check_payloads env identity image (map (payload_of_layer env) layers) ≡ ok tt
      → All (StandsFor identity image) (map env.cosign.simple_signing layers)
  unfolding check_payloads
  check_payloads_sound identity image [] h = tt
  check_payloads_sound identity image (layer ∷ rest) h =
      let payload = payload_of_layer env layer in
      let (_, refers, h1) = >>=-eq-ok (validate_identity env identity payload image) _ h in
      let (_, binds, h2) = >>=-eq-ok (validate_signed_docker_manifest_digest payload _) _ h1 in
      (
        check_payload_sound identity image (env.cosign.simple_signing layer) refers binds,
        check_payloads_sound identity image rest h2,
      )

  -- The image has signature layers that the configured key verifies, and all of them are for it.
  pub record CosignSigned (parameter : CosignParameters) (image : Image env.oci) : Type 0 where
    pub rule : IsRepositoryRule parameter.signed_identity
    pub key : List ℕ
    pub key_of : cosign_key env parameter.key_data parameter.key_path ≡ ok key
    pub layers : List env.cosign.Layer
    pub verifier : env.cosign.Verifier
    pub verifier_of : env.cosign.public_key_verifier key ≡ some verifier
    pub constraints : env.cosign.verify_constraints layers verifier ≡ true
    pub stand :
        All (StandsFor parameter.signed_identity image) (map env.cosign.simple_signing layers)

  -- The layers and the verifier behind the payloads.
  payloads_sound :
      (image : Image env.oci) (key : List ℕ) (payloads : List SigPayload)
      → verify_signature_and_get_payload env image key ≡ ok payloads
      → (layers : List env.cosign.Layer) × (verifier : env.cosign.Verifier)
        × (env.cosign.public_key_verifier key ≡ some verifier)
        × (env.cosign.verify_constraints layers verifier ≡ true)
        × (payloads ≡ map (payload_of_layer env) layers)
  unfolding verify_signature_and_get_payload
  payloads_sound image key payloads h =
      let (image_ref, _, h1) =
        >>=-eq-ok (ok_or (env.cosign.from_str (env.oci.whole image.reference)) _) _ h in
      let ((cosign_image, source), _, h2) =
        >>=-eq-ok (ok_or (env.cosign.triangulate image_ref) _) _ h1 in
      let (layers, _, h3) =
        >>=-eq-ok (ok_or (env.cosign.trusted_signature_layers source cosign_image) _) _ h2 in
      let (verifier, given, h4) = >>=-eq-ok (ok_or (env.cosign.public_key_verifier key) _) _ h3 in
      let (_, holds, h5) =
        >>=-eq-ok (ensure (env.cosign.verify_constraints layers verifier) _) _ h4 in
      (layers, verifier, ok_or-eq-ok _ _ given, ensure-eq-ok _ _ holds, sym (ok-injective h5))

-- An image that cosign allows has signature layers that satisfy the verifier of the one configured
-- key, the rule is `matchRepository`, `exactRepository` or absent, and every layer's payload names the
-- image's manifest digest and, under a rule, a reference that fits.
pub cosign_sound :
    (env : Env) (parameter : CosignParameters) (image : Image env.oci)
    → cosign_allows_image env parameter image ≡ ok tt
    → CosignSigned env parameter image
unfolding cosign_allows_image
cosign_sound env parameter image h =
    let (_, typed, h1) = >>=-eq-ok (check_reference_rule_types parameter.signed_identity) _ h in
    let (key, key_of, h2) = >>=-eq-ok (cosign_key env parameter.key_data parameter.key_path) _ h1 in
    let (payloads, got, h3) = >>=-eq-ok (verify_signature_and_get_payload env image key) _ h2 in
    let (layers, verifier, verifier_of, constraints, same) =
      payloads_sound env image key payloads got in
    record {
      rule = rule_types_sound parameter.signed_identity typed;
      key = key;
      key_of = key_of;
      layers = layers;
      verifier = verifier;
      verifier_of = verifier_of;
      constraints = constraints;
      stand = check_payloads_sound env parameter.signed_identity image layers (rw same at h3);
    }
