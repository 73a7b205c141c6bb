-- ===== src/Signature/Simple.antt =====
-- image-rs/src/signature/policy/simple/mod.rs, and `get_sigs_from_specific_sigstore` of sigstore.rs:
-- an image is allowed by one signature that a trusted key made for it.
pub mod Laws
use coco_guest_components.Common.{
  ℕ, ◌≡◌, Bool, true, false, Option, none, some, List, [], ◌∷◌, ◌++◌, ◌&&◌, not, if◌then◌else◌,
  is_some, get_or, Result, Checked, ok, err, ensure, ok_or, map_err, ◌>>=◌, ◌>>◌,
}
use coco_guest_components.Text.{Text, bytes, ◌=ₜ◌}
use coco_guest_components.Signature.Env.{Env, DirEntry}
use coco_guest_components.Signature.Failure.{
  Failure, bad_digest, unknown_key_type, no_key, both_keys, bad_base64, resource_unavailable,
  no_sigstore_config, no_image_digest, no_base_url, bad_sigstore_uri, unsupported_scheme,
  sigstore_unreadable, no_registry_signatures, no_signature_satisfies, registry_unavailable,
}
use coco_guest_components.Signature.Image.{Image}
use coco_guest_components.Signature.Image.Digest.{Digest, is_unset, print, parse}
use coco_guest_components.Signature.RefMatch.{PolicyReqMatchType, match_repo_digest_or_exact}
use coco_guest_components.Signature.Policy.{SimpleParameters}
use coco_guest_components.Signature.Payload.{
  validate_signed_docker_reference, validate_signed_docker_manifest_digest,
}
use coco_guest_components.Signature.Verify.{verify_sig_and_extract_payload}
use coco_guest_components.Signature.Sigstore.{
  SigstoreConfig, format_sigstore_name, base_url, is_default,
}

-- `KeyType::Gpg.to_string()`
abbrev pub gpg_keys : Text
gpg_keys = bytes "GPGKeys"

module _ (env : Env) where
  unfoldable pub judge_single_signature :
      Image env.oci → Option PolicyReqMatchType → List ℕ → List ℕ → Checked Failure
  judge_single_signature image signed_identity pubkey_ring sig = do
    sig_payload ← verify_sig_and_extract_payload env.pgp env.payload_of pubkey_ring sig
    validate_signed_docker_reference env.oci sig_payload image.reference
        (get_or match_repo_digest_or_exact signed_identity)
    validate_signed_docker_manifest_digest sig_payload (print image.manifest_digest)

  -- `match (&parameters.key_path, &parameters.key_data)`
  unfoldable pub pubkey_ring_of : Option Text → Option Text → Result Failure (List ℕ)
  pubkey_ring_of none none = err no_key
  pubkey_ring_of (some _) (some _) = err both_keys
  pubkey_ring_of none (some key_data) = ok_or (env.base64_decode key_data) bad_base64
  pubkey_ring_of (some key_path) none = ok_or (env.get_resource key_path) resource_unavailable

  -- The loop over a directory's entries.
  unfoldable pub read_entries :
      List (Option DirEntry) → List (List ℕ) → Result Failure (List (List ℕ))
  read_entries [] res = ok res
  read_entries (none ∷ rest) res = err sigstore_unreadable
  read_entries (some entry ∷ rest) res =
      let skipped = read_entries rest res in
      let taken = (do
        path_str ← ok_or entry.path sigstore_unreadable
        sig ← ok_or (env.read path_str) sigstore_unreadable
        read_entries rest (res ++ sig ∷ [])) in
      if entry.is_dir then skipped else taken

  unfoldable pub get_sigs_from_specific_sigstore : Text × Text → Result Failure (List (List ℕ))
  get_sigs_from_specific_sigstore (scheme, path) =
      if scheme =ₜ bytes "file"
      then (do entries ← ok_or (env.read_dir path) sigstore_unreadable; read_entries entries [])
      else err unsupported_scheme

  -- The digest of the image, or else that of its reference.
  unfoldable pub image_digest : Image env.oci → Result Failure Digest
  image_digest image =
      if not (is_unset image.manifest_digest)
      then ok image.manifest_digest
      else elim (env.oci.digest image.reference) [
        | some d ↦ map_err bad_digest (parse env.hex d)
        | none ↦ err no_image_digest
      ]

  -- The signatures of the sigstore that the configuration names for the image.
  unfoldable pub from_sigstore :
      SigstoreConfig → Image env.oci → Digest → List (List ℕ) → Result Failure (List (List ℕ))
  from_sigstore config image digest sigs = do
    base ← ok_or (base_url env.oci config image.reference) no_base_url
    let sigstore = base ++ b'/' ∷ format_sigstore_name env.oci image.reference digest
    uri ← ok_or (env.parse_url sigstore) bad_sigstore_uri
    sigstore_sigs ← get_sigs_from_specific_sigstore uri
    ok (sigs ++ sigstore_sigs)

  unfoldable pub from_registry :
      SigstoreConfig
      → List (List ℕ)
      → Result Failure (List (List ℕ))
      → Result Failure (List (List ℕ))
  from_registry config [] rest = if is_default config then err no_registry_signatures else rest
  from_registry config (s ∷ ss) rest = if is_default config then ok (s ∷ ss) else rest

  unfoldable pub get_signatures :
      Option SigstoreConfig → Image env.oci → Result Failure (List (List ℕ))
  get_signatures sigstore_config image = do
    config ← ok_or sigstore_config no_sigstore_config
    digest ← image_digest image
    elim env.registry_signatures [
      | none ↦ from_sigstore config image digest []
      | some fetch ↦ do
        sigs ← ok_or (fetch image.reference digest) registry_unavailable
        from_registry config sigs (from_sigstore config image digest sigs)
    ]

  -- `for sig in sigs.iter()`: the first signature that is accepted ends the loop.
  unfoldable pub judge_all :
      Image env.oci → Option PolicyReqMatchType → List ℕ → List (List ℕ) → Checked Failure
  judge_all image signed_identity pubkey_ring [] = err no_signature_satisfies
  judge_all image signed_identity pubkey_ring (sig ∷ rest) =
      let later = judge_all image signed_identity pubkey_ring rest in
      elim (judge_single_signature image signed_identity pubkey_ring sig) [
        | ok _ ↦ ok tt
        | err _ ↦ later
      ]

  unfoldable pub simple_signing_allows_image :
      Option SigstoreConfig → SimpleParameters → Image env.oci → Checked Failure
  simple_signing_allows_image sigstore_config parameters image = do
    ensure (parameters.key_type =ₜ gpg_keys) unknown_key_type
    pubkey_ring ← pubkey_ring_of parameters.key_path parameters.key_data
    sigs ← get_signatures sigstore_config image
    judge_all image parameters.signed_identity pubkey_ring sigs
