-- ===== src/Signature/RefMatch/Laws.antt =====
-- What each match policy accepts.
use coco_guest_components.Common.{
  ◌≡◌, refl, ◌≢◌, ◌↔◌, ◌⊎◌, inl, inr, true, none, some, ◌++◌, is_some, ok, arith, Option-cases,
  ensure, ok_or, ok_or-eq-ok, ◌>>=◌, >>=-eq-ok,
}
use coco_guest_components.Text.{Text, ◌=ₜ◌, strip_prefix}
use coco_guest_components.Text.Laws.{text_eq_iff, strip_prefix_iff}
use coco_guest_components.External.Oci.{OciClient, OciLaws}
use coco_guest_components.Signature.Image.{get_image_repository_full_name}
use coco_guest_components.Signature.RefMatch.{
  PolicyReqMatchType, match_exact, match_repo_digest_or_exact, match_repository, exact_reference,
  exact_repository, remap_identity, match_reference, bad_reference, same_repository, tag_and_digest,
  remap, matches_docker_reference,
}

module _ (oci : OciClient) where
  open oci use {Reference, tag, digest, whole, try_from}

  -- The signed text is a reference to a repository of this full name.
  abbrev pub NamesRepository : Text → Text → Type 0
  NamesRepository signed name =
      (r : Reference) × (try_from signed ≡ some r) × (get_image_repository_full_name oci r ≡ name)

  -- A tag must be matched by the whole text, a digest by the repository.
  abbrev pub FitsTagAndDigest : Reference → Text → Type 0
  FitsTagAndDigest origin signed =
      (is_some (tag origin) ≡ true → whole origin ≡ signed)
      × (is_some (digest origin) ≡ true
          → NamesRepository signed (get_image_repository_full_name oci origin))

  -- `origin` with its prefix replaced, if it has the prefix.
  abbrev pub Remapped : Text → Text → Text → Text → Type 0
  Remapped prefix signed_prefix t u =
      ((rest : Text) × (t ≡ prefix ++ rest) × (u ≡ signed_prefix ++ rest))
      ⊎ (((rest : Text) → t ≢ prefix ++ rest) × (u ≡ t))

  -- What a policy demands of the image's reference and the signed text.
  abbrev pub Fits : PolicyReqMatchType → Reference → Text → Type 0
  Fits match_exact origin signed = (digest origin ≡ none) × (whole origin ≡ signed)
  Fits match_repo_digest_or_exact origin signed = FitsTagAndDigest origin signed
  Fits match_repository origin signed =
      NamesRepository signed (get_image_repository_full_name oci origin)
  Fits (exact_reference docker_reference) origin signed = signed ≡ docker_reference
  Fits (exact_repository docker_repository) origin signed = NamesRepository signed docker_repository
  Fits (remap_identity prefix signed_prefix) origin signed =
      (u : Text) × (new_origin : Reference) × Remapped prefix signed_prefix (whole origin) u
      × (try_from u ≡ some new_origin)
      × FitsTagAndDigest new_origin signed

  same_repository_iff :
      (origin : Reference) (signed : Text)
      → (same_repository oci origin signed ≡ ok tt)
        ↔ NamesRepository signed (get_image_repository_full_name oci origin)
  unfolding same_repository
  same_repository_iff origin signed = elim (Option-cases (try_from signed)) [
    | inl bad ↦ (λ h. absurd (ground (arith, bad)), λ (r, e, _). absurd (ground (arith, bad, e)))
    | inr (r, e) ↦ (
      λ h. (
        r,
        e,
        ground (
          arith,
          e,
          text_eq_iff (get_image_repository_full_name oci origin)
              (get_image_repository_full_name oci r),
        ),
      ),
      λ (q, f, same). ground (
        arith,
        e,
        f,
        text_eq_iff (get_image_repository_full_name oci origin)
            (get_image_repository_full_name oci r),
      ),
    )
  ]

  tag_and_digest_iff :
      (origin : Reference) (signed : Text)
      → (tag_and_digest oci origin signed ≡ ok tt) ↔ FitsTagAndDigest origin signed
  unfolding tag_and_digest
  tag_and_digest_iff origin signed =
      let (to, from) = same_repository_iff origin signed in
      (
        λ h. (
          λ t. ground (arith, text_eq_iff (whole origin) signed),
          λ d. to (ground (arith, text_eq_iff (whole origin) signed)),
        ),
        λ (t, d). ground (arith, text_eq_iff (whole origin) signed, from),
      )

  remap-Remapped :
      (prefix signed_prefix t : Text)
      → Remapped prefix signed_prefix t (remap oci prefix signed_prefix t)
  unfolding remap
  remap-Remapped prefix signed_prefix t = elim (Option-cases (strip_prefix prefix t)) [
    | inl other ↦
        inr (
          (λ rest e. ground (arith, other, (strip_prefix_iff prefix t rest).1 e)),
          rw (other, remap),
        )
    | inr (rest, e) ↦ inl (rest, (strip_prefix_iff prefix t rest).0 e, rw (e, remap))
  ]

  Remapped-functional :
      (prefix signed_prefix t u : Text)
      → Remapped prefix signed_prefix t u
      → u ≡ remap oci prefix signed_prefix t
  unfolding remap
  Remapped-functional prefix signed_prefix t u (inl (rest, e, f)) =
      rw ((strip_prefix_iff prefix t rest).1 e, remap) f
  Remapped-functional prefix signed_prefix t u (inr (other, f)) =
      elim (Option-cases (strip_prefix prefix t)) [
        | inl e ↦ rw (e, remap) f
        | inr (rest, e) ↦ absurd (other rest ((strip_prefix_iff prefix t rest).0 e))
      ]

  named_repository_iff :
      (docker_repository signed : Text)
      → ((do
        r ← ok_or (try_from signed) bad_reference
        ensure (get_image_repository_full_name oci r =ₜ docker_repository) match_reference)
          ≡ ok tt)
        ↔ NamesRepository signed docker_repository
  named_repository_iff docker_repository signed = elim (Option-cases (try_from signed)) [
    | inl bad ↦ (λ h. absurd (ground (arith, bad)), λ (r, e, _). absurd (ground (arith, bad, e)))
    | inr (r, e) ↦
        let same = text_eq_iff (get_image_repository_full_name oci r) docker_repository in
        (λ h. (r, e, ground (arith, e, same)), λ (q, f, named). ground (arith, e, f, same))
  ]

  remap_identity_iff :
      (prefix signed_prefix : Text) (origin : Reference) (signed : Text)
      → ((do
        new_origin ← ok_or (try_from (remap oci prefix signed_prefix (whole origin))) bad_reference
        tag_and_digest oci new_origin signed)
          ≡ ok tt)
        ↔ Fits (remap_identity prefix signed_prefix) origin signed
  remap_identity_iff prefix signed_prefix origin signed =
      let u = remap oci prefix signed_prefix (whole origin) in
      (
        λ h.
            let (r, e, fits) =
              >>=-eq-ok (ok_or (try_from u) bad_reference) (λ r. tag_and_digest oci r signed) h in
            (
              u,
              r,
              remap-Remapped prefix signed_prefix (whole origin),
              ok_or-eq-ok (try_from u) bad_reference e,
              (tag_and_digest_iff r signed).0 fits,
            ),
        λ (v, r, mapped, e, fits).
            let same : v ≡ u = Remapped-functional prefix signed_prefix (whole origin) v mapped in
            rw (rw same at e) ((tag_and_digest_iff r signed).1 fits),
      )

-- A match policy accepts an image's reference for a signed text exactly if they fit.
pub matches_docker_reference_iff :
    (oci : OciClient) (policy : PolicyReqMatchType) (origin : oci.Reference) (signed : Text)
    → (matches_docker_reference oci policy origin signed ≡ ok tt) ↔ Fits oci policy origin signed
unfolding matches_docker_reference
matches_docker_reference_iff oci match_exact origin signed =
    let e = text_eq_iff (oci.whole origin) signed in
    (λ h. ground (arith, e), λ h. ground (arith, e))
matches_docker_reference_iff oci match_repo_digest_or_exact origin signed =
    tag_and_digest_iff oci origin signed
matches_docker_reference_iff oci match_repository origin signed =
    same_repository_iff oci origin signed
matches_docker_reference_iff oci (exact_reference docker_reference) origin signed =
    let e = text_eq_iff signed docker_reference in (λ h. ground (arith, e), λ h. ground (arith, e))
matches_docker_reference_iff oci (exact_repository docker_repository) origin signed =
    named_repository_iff oci docker_repository signed
matches_docker_reference_iff oci (remap_identity prefix signed_prefix) origin signed =
    remap_identity_iff oci prefix signed_prefix origin signed

-- A policy that asks for the image's own repository, on a reference with a tag or a digest, accepts
-- only texts that name that repository.
pub matches_same_repository :
    (oci : OciClient) (laws : OciLaws oci) (policy : PolicyReqMatchType) (origin : oci.Reference)
    (signed : Text)
    → (policy ≡ match_exact) ⊎ (policy ≡ match_repo_digest_or_exact) ⊎ (policy ≡ match_repository)
    → (is_some (oci.tag origin) ≡ true) ⊎ (is_some (oci.digest origin) ≡ true)
    → matches_docker_reference oci policy origin signed ≡ ok tt
    → NamesRepository oci signed (get_image_repository_full_name oci origin)
matches_same_repository oci laws policy origin signed kind marked h =
    let itself : oci.whole origin ≡ signed
        → NamesRepository oci signed (get_image_repository_full_name oci origin) =
      λ e. (origin, rw (← e) (laws.try_from-whole origin), refl) in
    elim kind [
      | inl exact ↦
          itself ((matches_docker_reference_iff oci match_exact origin signed).0 (rw exact at h)).1
      | inr (inl either) ↦
          let fits =
            (matches_docker_reference_iff oci match_repo_digest_or_exact origin signed).0
              (rw either at h) in
          elim marked [ inl tagged ↦ itself (fits.0 tagged) | inr digested ↦ fits.1 digested ]
      | inr (inr repository) ↦
          (matches_docker_reference_iff oci match_repository origin signed).0 (rw repository at h)
    ]
