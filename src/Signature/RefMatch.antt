-- ===== src/Signature/RefMatch.antt =====
-- image-rs/src/signature/policy/ref_match.rs: does the reference that was signed stand for the
-- image that is asked for?
pub mod Laws
use coco_guest_components.Common.{
  ◌≡◌, Option, none, some, ◌++◌, ◌&&◌, not, if◌then◌else◌, is_some, Checked, ok, ensure, ok_or,
  ◌>>=◌, ◌>>◌,
}
use coco_guest_components.Text.{Text, ◌=ₜ◌, strip_prefix}
use coco_guest_components.External.Oci.{OciClient}
use coco_guest_components.Signature.Image.{get_image_repository_full_name}

pub data PolicyReqMatchType : Type 0 where
  match_exact match_repo_digest_or_exact match_repository : PolicyReqMatchType
  exact_reference : Text → PolicyReqMatchType
  exact_repository : Text → PolicyReqMatchType
  -- `prefix` and `signed_prefix`
  remap_identity : Text → Text → PolicyReqMatchType

pub data MatchError : Type 0 where
  digest_in_match_exact match_reference bad_reference : MatchError

abbrev pub default_match_policy : PolicyReqMatchType
default_match_policy = match_exact

module _ (oci : OciClient) where
  open oci use {Reference, tag, digest, whole, try_from}

  -- Both references name one repository; the signed one is parsed first.
  unfoldable pub same_repository : Reference → Text → Checked MatchError
  same_repository origin signed = do
    r ← ok_or (try_from signed) bad_reference
    ensure (get_image_repository_full_name oci origin =ₜ get_image_repository_full_name oci r)
        match_reference

  -- The two tests of `matchRepoDigestOrExact` and `remapIdentity`.
  unfoldable pub tag_and_digest : Reference → Text → Checked MatchError
  tag_and_digest origin signed = do
    ensure (not (is_some (tag origin) && not (whole origin =ₜ signed))) match_reference
    if is_some (digest origin) then same_repository origin signed else ok tt

  -- The reference with the prefix replaced, or as it is.
  unfoldable pub remap : Text → Text → Text → Text
  remap prefix signed_prefix t = elim (strip_prefix prefix t) [
    | none ↦ t
    | some rest ↦ signed_prefix ++ rest
  ]

  unfoldable pub matches_docker_reference :
      PolicyReqMatchType → Reference → Text → Checked MatchError
  matches_docker_reference match_exact origin signed = do
    ensure (not (is_some (digest origin))) digest_in_match_exact
    ensure (whole origin =ₜ signed) match_reference
  matches_docker_reference match_repo_digest_or_exact origin signed = tag_and_digest origin signed
  matches_docker_reference match_repository origin signed = same_repository origin signed
  matches_docker_reference (exact_reference docker_reference) origin signed =
      ensure (signed =ₜ docker_reference) match_reference
  matches_docker_reference (exact_repository docker_repository) origin signed = do
    r ← ok_or (try_from signed) bad_reference
    ensure (get_image_repository_full_name oci r =ₜ docker_repository) match_reference
  matches_docker_reference (remap_identity prefix signed_prefix) origin signed = do
    new_origin ← ok_or (try_from (remap prefix signed_prefix (whole origin))) bad_reference
    tag_and_digest new_origin signed
