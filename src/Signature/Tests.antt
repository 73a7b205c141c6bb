-- ===== src/Signature/Tests.antt =====
-- Runs of the signature check on concrete inputs, with concrete functions for what is outside.
use coco_guest_components.Common.{
  ◌≡◌, refl, ◌↔◌, ◌⊎◌, inl, inr, true, some, [], ◌∷◌, Memᴰ, find_map, get_or, is_some, ok,
}
use coco_guest_components.Text.{bytes, ◌=ₜ◌, split, split_once, rsplit_once, strip_prefix}
use coco_guest_components.Text.Map.{lookup, insert}
use coco_guest_components.Text.Utf8.{from_utf8}
use coco_guest_components.External.Concrete.{oci, oci_laws, hex, hex_laws, replicate}
use coco_guest_components.Signature.Image.{
  Image, without_port, namespaces_of, get_image_repository_full_name, get_image_namespaces,
  transport_name, default_with_reference, set_manifest_digest, docker,
}
use coco_guest_components.Signature.Image.Digest.{print, parse, is_unset}
use coco_guest_components.Signature.Image.Digest.Laws.{IsDigest, parse_iff}
use coco_guest_components.Signature.Image.Namespaces.{
  IsPathPrefix, IsWildcard, host_of, namespaces_of_iff,
}
use coco_guest_components.Signature.RefMatch.{
  match_repository, remap_identity, same_repository, tag_and_digest, remap,
  matches_docker_reference,
}
use coco_guest_components.Signature.RefMatch.Laws.{
  Fits, NamesRepository, matches_docker_reference_iff, matches_same_repository,
}
use coco_guest_components.Signature.Payload.{
  from_simple_signing, validate_signed_docker_reference, validate_signed_docker_manifest_digest,
}
use coco_guest_components.Signature.Policy.{scoped, requirements_for_image}
use coco_guest_components.Signature.Policy.Laws.{candidates, requirements_for_image_lem}
use coco_guest_components.Signature.Verify.{
  validate, try_packet, try_keys, extract_payload, verify_sig_and_extract_payload,
}
use coco_guest_components.Signature.Verify.Laws.{Verified, verify_sig_sound}
use coco_guest_components.Signature.Sigstore.{
  SigstoreConfig, format_sigstore_name, get_namespace, insert_namespace, merge_namespaces,
  merge_default, merge_docker, update_self, in_namespaces, base_url,
}
use coco_guest_components.Signature.Sigstore.Laws.{Merged, update_self_lem}
use coco_guest_components.Signature.Simple.{
  judge_single_signature, pubkey_ring_of, read_entries, get_sigs_from_specific_sigstore,
  image_digest, from_sigstore, get_signatures, judge_all, simple_signing_allows_image,
}
use coco_guest_components.Signature.Simple.Laws.{SimplySigned, simple_signing_iff}
use coco_guest_components.Signature.Cosign.{
  check_reference_rule_types, cosign_key, verify_signature_and_get_payload, validate_identity,
  check_payloads, cosign_allows_image,
}
use coco_guest_components.Signature.Cosign.Laws.{CosignSigned, cosign_sound}
use coco_guest_components.Signature.Validator.{
  check_image_requirement, check_all, check_nonempty, check_image_signature,
}
use coco_guest_components.Signature.Validator.Laws.{Accepted, check_image_signature_sound}
use coco_guest_components.Signature.Setup.{
  app, good_digest, pgp, payload_for, env, simple, by_cosign, policy, store, validator,
}

accepts_signed : check_image_signature env validator app good_digest ≡ ok tt
unfolding check_image_signature check_image_requirement check_all check_nonempty set_manifest_digest
    default_with_reference parse split requirements_for_image scoped transport_name lookup
    get_image_namespaces namespaces_of get_image_repository_full_name rsplit_once split_once
    simple_signing_allows_image pubkey_ring_of get_signatures image_digest is_unset from_sigstore
    base_url in_namespaces format_sigstore_name get_sigs_from_specific_sigstore read_entries
    judge_all judge_single_signature verify_sig_and_extract_payload try_keys try_packet validate
    extract_payload from_utf8 validate_signed_docker_reference
    validate_signed_docker_manifest_digest print matches_docker_reference tag_and_digest
    same_repository ◌=ₜ◌ cosign_allows_image check_reference_rule_types cosign_key
    verify_signature_and_get_payload from_simple_signing check_payloads validate_identity
accepts_signed = refl

check_image_signature_sound_example : Accepted env validator app good_digest
check_image_signature_sound_example =
    check_image_signature_sound env hex_laws validator app good_digest accepts_signed

parse_iff_example :
    (parse hex good_digest ≡ ok (record { algorithm = bytes "sha256"; value = replicate 64 b'a' }))
    ↔ ((good_digest ≡ print (record { algorithm = bytes "sha256"; value = replicate 64 b'a' }))
        × IsDigest (record { algorithm = bytes "sha256"; value = replicate 64 b'a' }))
parse_iff_example =
    parse_iff hex hex_laws good_digest
      (record { algorithm = bytes "sha256"; value = replicate 64 b'a' })

namespaces_of_run :
    namespaces_of (bytes "a.b.io:80/x/y")
    ≡ bytes "a.b.io:80/x/y"
      ∷ bytes "a.b.io:80/x"
      ∷ bytes "a.b.io:80"
      ∷ bytes "*.b.io"
      ∷ bytes "*.io"
      ∷ []
unfolding namespaces_of rsplit_once split_once
namespaces_of_run = refl

namespaces_of_iff_example : Memᴰ (bytes "*.io") (namespaces_of (bytes "a.io:80/x")) ↔ (
    IsPathPrefix (bytes "*.io") (bytes "a.io:80/x")
    ⊎ IsWildcard (bytes "*.io") (without_port (host_of (bytes "a.io:80/x"))))
namespaces_of_iff_example = namespaces_of_iff (bytes "a.io:80/x") (bytes "*.io")

matches_docker_reference_iff_example :
    (matches_docker_reference oci
        (remap_identity (bytes "mirror/") (bytes "reg/"))
        (bytes "mirror/app:1")
        (bytes "reg/app:1")
      ≡ ok tt)
    ↔ Fits oci
        (remap_identity (bytes "mirror/") (bytes "reg/"))
        (bytes "mirror/app:1")
        (bytes "reg/app:1")
matches_docker_reference_iff_example =
    matches_docker_reference_iff oci (remap_identity (bytes "mirror/") (bytes "reg/"))
      (bytes "mirror/app:1") (bytes "reg/app:1")

remapped_accepted :
    matches_docker_reference oci
      (remap_identity (bytes "mirror/") (bytes "reg/"))
      (bytes "mirror/app:1")
      (bytes "reg/app:1")
    ≡ ok tt
unfolding matches_docker_reference remap strip_prefix tag_and_digest same_repository split_once ◌=ₜ◌
remapped_accepted = refl

by_repository :
    matches_docker_reference oci match_repository (bytes "reg/app:1") (bytes "reg/app:2") ≡ ok tt
unfolding matches_docker_reference same_repository get_image_repository_full_name split_once ◌=ₜ◌
by_repository = refl

tagged : is_some (oci.tag (bytes "reg/app:1")) ≡ true
unfolding split_once
tagged = refl

matches_same_repository_example :
    NamesRepository oci (bytes "reg/app:2") (get_image_repository_full_name oci (bytes "reg/app:1"))
matches_same_repository_example =
    matches_same_repository oci oci_laws match_repository (bytes "reg/app:1") (bytes "reg/app:2")
      (inr (inr refl)) (inl tagged) by_repository

abbrev image : Image oci
image = record {
  reference = app;
  manifest_digest = record { algorithm = bytes "sha256"; value = replicate 64 b'a' };
}

requirements_for_image_lem_example :
    requirements_for_image oci policy image
    ≡ get_or policy.default (
        find_map (λ k. lookup k (get_or [] (lookup docker policy.transports))) (candidates oci app))
requirements_for_image_lem_example = requirements_for_image_lem oci policy image

verifies :
    verify_sig_and_extract_payload pgp env.payload_of (7 ∷ []) good_digest
    ≡ ok (payload_for good_digest)
unfolding verify_sig_and_extract_payload try_keys try_packet validate extract_payload from_utf8 ◌=ₜ◌
verifies = refl

verify_sig_sound_example :
    Verified pgp env.payload_of (7 ∷ []) good_digest (payload_for good_digest)
verify_sig_sound_example =
    verify_sig_sound pgp env.payload_of (7 ∷ []) good_digest (payload_for good_digest) verifies

abbrev more : SigstoreConfig
more = record {
  default_config = some (record { sigstore = bytes "file:///var/sigs" });
  docker_namespace_config = some ((bytes "reg", record { sigstore = bytes "file:///r" }) ∷ []);
}

merges : update_self store more ≡ ok more
unfolding update_self merge_default merge_docker merge_namespaces get_namespace insert_namespace
    insert lookup ◌=ₜ◌
merges = refl

update_self_lem_example : Merged store more more
update_self_lem_example = update_self_lem store more more merges

simple_signing_iff_example :
    (simple_signing_allows_image env (some store) simple image ≡ ok tt)
    ↔ SimplySigned env (some store) simple image
simple_signing_iff_example = simple_signing_iff env (some store) simple image

allowed_by_cosign : cosign_allows_image env by_cosign image ≡ ok tt
unfolding cosign_allows_image check_reference_rule_types cosign_key verify_signature_and_get_payload
    check_payloads validate_identity validate_signed_docker_reference matches_docker_reference
    same_repository get_image_repository_full_name split_once ◌=ₜ◌
    validate_signed_docker_manifest_digest print from_simple_signing
allowed_by_cosign = refl

cosign_sound_example : CosignSigned env by_cosign image
cosign_sound_example = cosign_sound env by_cosign image allowed_by_cosign
