-- ===== src/Hub/Credentials.antt =====
-- confidential-data-hub/hub/src/auth/kbs.rs: the credentials of key management services, fetched at the
-- start and put into files. A map of paths to resources is the list of its entries, in the order in which
-- it is walked.
use coco_guest_components.Common.{
  ◌≡◌, ◌≢◌, refl, ◌⊎◌, inl, inr, Bool, true, false, not, ◌&&◌, ◌||◌, List, [], ◌∷◌, ◌++◌, All,
  if◌then◌else◌, Bool-cases, Result, ok, err, ok_or, ensure, arith,
}
use coco_guest_components.Text.{Text, bytes, split, strip_prefix, starts_with, ◌=ₜ◌}
use coco_guest_components.Text.Laws.{text_eq_iff}
use coco_guest_components.Steps.{Steps, ◌>>=◌, lift}
use coco_guest_components.External.Wrapping.{Disk}
use coco_guest_components.Hub.Kms.{
  HubError, kms_client_failed, kms_failed, write_failed, illegal_credential_path,
}

-- `KBS_RESOURCE_STORAGE_DIR`
abbrev pub kbs_resource_storage_dir : Text
kbs_resource_storage_dir = bytes "/run/confidential-containers/cdh"

-- `any(|it| it == ".." || it == ".")`
unfoldable pub has_dots : List Text → Bool
has_dots [] = false
has_dots (it ∷ parts) = (it =ₜ bytes ".." || it =ₜ bytes ".") || has_dots parts

unfoldable pub is_path_valid : Text → Bool
is_path_valid path = starts_with kbs_resource_storage_dir path && not (has_dots (split b'/' path))

-- The paths of the credentials, checked in turn.
unfoldable pub check_paths : List (Text × Text) → Result HubError (Unit {0})
check_paths [] = ok tt
check_paths ((k, v) ∷ rest) =
    let later = check_paths rest in
    if not (is_path_valid k) then err illegal_credential_path else later

module _ (disk : Disk) where
  open disk use {State}

  abbrev pub D : Type 0 → Type 0
  D A = Steps State HubError A

  abbrev must : HubError → (State → State × Bool) → D (Unit {0})
  must e call s = let (s', b) = call s in (s', ensure b e)

  -- One credential, after its directory is there.
  unfoldable pub put_credential : Text → Text → D (Unit {0})
  put_credential k v = do
    content ← λ s. let (s', o) = disk.get_secret s v in (s', ok_or o kms_failed)
    _ ← must write_failed (λ s. disk.create_parent s k)
    must write_failed (λ s. disk.write s k content)

  unfoldable pub put_all : List (Text × Text) → D (Unit {0})
  put_all [] = lift (ok tt)
  put_all ((k, v) ∷ rest) = do _ ← put_credential k v; put_all rest

  unfoldable pub init_kbs_resources : List (Text × Text) → D (Unit {0})
  init_kbs_resources credentials = do
    _ ← lift (check_paths credentials)
    _ ← must kms_client_failed disk.kbc_client
    _ ← must write_failed (λ s. disk.create_dir_all s kbs_resource_storage_dir)
    put_all credentials

-- The path begins with the directory's name, and no part of it leads elsewhere.
abbrev pub IsPlaced : Text → Type 0
IsPlaced path =
    ((rest : Text) × (path ≡ kbs_resource_storage_dir ++ rest))
    × All (λ part. (part ≢ bytes "..") × (part ≢ bytes ".")) (split b'/' path)

strip_prefix_some : (p t : Text) → starts_with p t ≡ true → (rest : Text) × (t ≡ p ++ rest)
unfolding starts_with strip_prefix
strip_prefix_some [] t h = (t, refl)
strip_prefix_some (x ∷ p) [] h = absurd (cc)
strip_prefix_some (x ∷ p) (y ∷ t) h =
    let (rest, same) = strip_prefix_some p t (ground arith) in (rest, ground arith)

no_dots :
    (parts : List Text)
    → has_dots parts ≡ false
    → All (λ part. (part ≢ bytes "..") × (part ≢ bytes ".")) parts
unfolding has_dots
no_dots [] h = tt
no_dots (it ∷ parts) h = (
  (
    λ e. absurd (ground (arith, (text_eq_iff it (bytes "..")).1 e)),
    λ e. absurd (ground (arith, (text_eq_iff it (bytes ".")).1 e)),
  ),
  no_dots parts (ground arith),
)

is_path_valid-IsPlaced : (path : Text) → is_path_valid path ≡ true → IsPlaced path
unfolding is_path_valid
is_path_valid-IsPlaced path h = (
  strip_prefix_some kbs_resource_storage_dir path (ground arith),
  no_dots (split b'/' path) (ground arith),
)

check_paths-IsPlaced :
    (credentials : List (Text × Text))
    → All (λ c. IsPlaced c.0) credentials ⊎ (check_paths credentials ≡ err illegal_credential_path)
unfolding check_paths
check_paths-IsPlaced [] = inl tt
check_paths-IsPlaced ((k, v) ∷ rest) = elim (Bool-cases (is_path_valid k)) [
  | inr invalid ↦ inr (ground arith)
  | inl valid ↦ elim (check_paths-IsPlaced rest) [
    | inl placed ↦ inl (is_path_valid-IsPlaced k valid, placed)
    | inr fails ↦ inr (ground arith)
  ]
]

-- Nothing is fetched or written, and the error says so, unless every credential's path begins with
-- the name of the storage directory and has no part `.` or `..`.
pub init_kbs_resources_guard :
    (disk : Disk) (credentials : List (Text × Text)) (s : disk.State)
    → All (λ c. IsPlaced c.0) credentials
      ⊎ (init_kbs_resources disk credentials s ≡ (s, err illegal_credential_path))
unfolding init_kbs_resources
init_kbs_resources_guard disk credentials s = elim (check_paths-IsPlaced credentials) [
  | inl placed ↦ inl placed
  | inr fails ↦ inr (ground arith)
]
