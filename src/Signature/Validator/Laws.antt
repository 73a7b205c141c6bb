-- ===== src/Signature/Validator/Laws.antt =====
-- What an accepted image has.
use coco_guest_components.Common.{
  ◌≡◌, sym, ap, ◌∙◌, ◌≢◌, some, List, [], ◌∷◌, All, ok, ok_or, map_err, >>=-eq-ok, ok_or-eq-ok,
  map_err-eq-ok, ok-injective,
}
use coco_guest_components.Text.{Text}
use coco_guest_components.External.Hex.{HexLaws}
use coco_guest_components.Signature.Env.{Env}
use coco_guest_components.Signature.Failure.{bad_image_reference, bad_digest}
use coco_guest_components.Signature.Image.{Image, default_with_reference, set_manifest_digest}
use coco_guest_components.Signature.Image.Digest.{print, parse}
use coco_guest_components.Signature.Image.Digest.Laws.{IsDigest, parse_iff}
use coco_guest_components.Signature.Policy.{
  PolicyReqType, accept, reject, simple_signing, cosign, requirements_for_image,
}
use coco_guest_components.Signature.Simple.Laws.{SimplySigned, simple_signing_iff}
use coco_guest_components.Signature.Cosign.Laws.{CosignSigned, cosign_sound}
use coco_guest_components.Signature.Validator.{
  SignatureValidator, check_image_requirement, check_all, check_nonempty, check_image_signature,
}

module _ (env : Env) (validator : SignatureValidator) where
  -- What a requirement asks of an image.
  abbrev pub Satisfies : Image env.oci → PolicyReqType → Type 0
  Satisfies image accept = Unit
  Satisfies image reject = ⊥
  Satisfies image (simple_signing inner) =
      SimplySigned env validator.simple_signing_sigstore_config inner image
  Satisfies image (cosign inner) = CosignSigned env inner image

  requirement_sound :
      (req : PolicyReqType) (image : Image env.oci)
      → check_image_requirement env validator req image ≡ ok tt
      → Satisfies image req
  unfolding check_image_requirement
  requirement_sound accept image h = tt
  requirement_sound reject image h = cc
  requirement_sound (simple_signing inner) image h = (simple_signing_iff env _ inner image).0 h
  requirement_sound (cosign inner) image h = cosign_sound env inner image h

  check_all_sound :
      (reqs : List PolicyReqType) (image : Image env.oci)
      → check_all env validator reqs image ≡ ok tt
      → All (Satisfies image) reqs
  unfolding check_all
  check_all_sound [] image h = tt
  check_all_sound (req ∷ reqs) image h =
      let (_, here, later) = >>=-eq-ok (check_image_requirement env validator req image) _ h in
      (requirement_sound req image here, check_all_sound reqs image later)

  check_nonempty_sound :
      (reqs : List PolicyReqType) (image : Image env.oci)
      → check_nonempty env validator reqs image ≡ ok tt
      → (reqs ≢ []) × All (Satisfies image) reqs
  unfolding check_nonempty
  check_nonempty_sound [] image h = cc
  check_nonempty_sound (req ∷ reqs) image h = ((λ e. cc), check_all_sound (req ∷ reqs) image h)

  -- The image that the check is about: its reference and manifest digest are the arguments, parsed.
  pub record Accepted (image_reference image_digest : Text) : Type 0 where
    pub image : Image env.oci
    pub reference_parses : env.oci.try_from image_reference ≡ some image.reference
    pub digest_is : print image.manifest_digest ≡ image_digest
    pub digest_good : IsDigest image.manifest_digest
    pub some_requirement : requirements_for_image env.oci validator.policy image ≢ []
    pub satisfied : All (Satisfies image) (requirements_for_image env.oci validator.policy image)

set_digest_sound :
    (env : Env) (image image' : Image env.oci) (digest : Text)
    → set_manifest_digest env.oci env.hex image digest ≡ ok image'
    → (image'.reference ≡ image.reference) × (parse env.hex digest ≡ ok image'.manifest_digest)
unfolding set_manifest_digest
set_digest_sound env image image' digest h =
    let (d, parsed, set) = >>=-eq-ok (parse env.hex digest) _ h in
    let same = ok-injective set in
    (
      sym (ap (λ (i : Image env.oci). i.reference) same),
      parsed ∙ ap ok (ap (λ (i : Image env.oci). i.manifest_digest) same),
    )

-- An accepted image has a well-formed reference and digest, the policy has at least one requirement
-- for it, and it satisfies all of them; none of them is `reject`.
pub check_image_signature_sound :
    (env : Env) (laws : HexLaws env.hex) (validator : SignatureValidator)
    (image_reference image_digest : Text)
    → check_image_signature env validator image_reference image_digest ≡ ok tt
    → Accepted env validator image_reference image_digest
unfolding check_image_signature default_with_reference
check_image_signature_sound env laws validator image_reference image_digest h =
    let (reference, found, h1) =
      >>=-eq-ok (ok_or (env.oci.try_from image_reference) bad_image_reference) _ h in
    let (image, set, h2) =
      >>=-eq-ok
        (map_err bad_digest (
          set_manifest_digest env.oci env.hex (default_with_reference env.oci reference)
            image_digest))
        _ h1 in
    let (same, parsed) =
      set_digest_sound env (default_with_reference env.oci reference) image image_digest
        (map_err-eq-ok bad_digest _ set) in
    let (printed, good) = (parse_iff env.hex laws image_digest image.manifest_digest).0 parsed in
    let (nonempty, all) =
      check_nonempty_sound env validator (requirements_for_image env.oci validator.policy image)
        image h2 in
    record {
      image = image;
      reference_parses = ok_or-eq-ok _ _ found ∙ ap some (sym same);
      digest_is = sym printed;
      digest_good = good;
      some_requirement = nonempty;
      satisfied = all;
    }
