-- ===== src/KeyProvider.antt =====
-- attestation-agent/coco_keyprovider/src/enc_mods: the key provider that wraps the key of an encrypted
-- layer with a key encryption key, and registers that with a key broker.
pub mod Wrap
pub mod Laws
pub mod Service
mod Tests
use coco_guest_components.Common.{
  ℕ, zero, suc, not, ◌&&◌, Bool, true, false, Option, none, some, List, [], ◌∷◌, ◌++◌, ◌==◌, get_or,
  if◌then◌else◌, Result, ok, err, ok_or, ensure,
}
use coco_guest_components.Text.{Text, bytes, split, split_once, strip_prefix, cons_first, ◌=ₜ◌}
use coco_guest_components.Text.Map.{lookup, insert}
use coco_guest_components.External.Aes.{Aes}
use coco_guest_components.External.Packets.{Base64, Serde}
use coco_guest_components.External.Wrapping.{Provider}
use coco_guest_components.KeyProvider.Wrap.{
  Algorithm, a256_gcm, algorithm_name, algorithm_or_default, encrypt,
}
use coco_guest_components.Steps.{Steps, ◌>>=◌, lift}

pub data ProviderError : Type 0 where
  no_params read_key_failed no_randomness bad_resource_path encrypt_failed sign_failed
        register_failed :
      ProviderError

pub record AnnotationPacket : Type 0 where
  pub kid : Text
  pub wrapped_data : Text
  pub iv : Text
  pub wrap_type : Text

pub record InputParams : Type 0 where
  pub sample : Bool
  pub keyid : Option Text
  pub keypath : Option Text
  pub algorithm : Algorithm

-- `HARDCODED_KEY`
abbrev pub hardcoded_key : List ℕ
hardcoded_key =
    217 ∷ 155 ∷ 119 ∷ 5 ∷ 176 ∷ 186 ∷ 122 ∷ 22 ∷ 130 ∷ 149 ∷ 179 ∷ 163 ∷ 54 ∷ 114 ∷ 112 ∷ 176 ∷ 221
    ∷ 155 ∷ 55 ∷ 27 ∷ 245 ∷ 20 ∷ 202 ∷ 139 ∷ 155 ∷ 167 ∷ 240 ∷ 163 ∷ 55 ∷ 17 ∷ 218 ∷ 234 ∷ []

abbrev pub zero_iv : List ℕ
zero_iv = 0 ∷ 0 ∷ 0 ∷ 0 ∷ 0 ∷ 0 ∷ 0 ∷ 0 ∷ 0 ∷ 0 ∷ 0 ∷ 0 ∷ []

abbrev pub hard_coded_keyid : Text
hard_coded_keyid = bytes "kbs:///default/test-key/1"

abbrev pub default_key_repo_path : Text
default_key_repo_path = bytes "/default/image-kek"

abbrev pub kbs_resource_url_prefix : Text
kbs_resource_url_prefix = bytes "kbs://"

-- `split("::")`
unfoldable pub split_fields : Text → List Text
split_fields [] = [] ∷ []
split_fields (x ∷ []) = (x ∷ []) ∷ []
split_fields (x ∷ y ∷ t) =
    let past = split_fields t in
    let next = split_fields (y ∷ t) in
    if x == b':' && y == b':' then [] ∷ past else cons_first x next

-- `filter_map(split_once('='))`, collected into a map: later fields replace earlier ones.
unfoldable pub collect_fields : List (Text × Text) → List Text → List (Text × Text)
collect_fields map [] = map
collect_fields map (field ∷ fields) =
    let without = collect_fields map fields in
    elim (split_once b'=' field) [
      | none ↦ without
      | some (key, value) ↦ collect_fields (insert key value map) fields
    ]

-- The parameter, if it is the text `true`.
unfoldable pub is_true : Option Text → Bool
is_true none = false
is_true (some value) = value =ₜ bytes "true"

unfoldable pub algorithm_param : Option Text → Algorithm
algorithm_param none = a256_gcm
algorithm_param (some name) = algorithm_or_default name

-- The algorithm is read from the key path.
unfoldable pub parse_input_params : Text → InputParams
parse_input_params input =
    let map = collect_fields [] (split_fields input) in
    record {
      sample = is_true (lookup (bytes "sample") map);
      keyid = lookup (bytes "keyid") map;
      keypath = lookup (bytes "keypath") map;
      algorithm = algorithm_param (lookup (bytes "keypath") map);
    }

-- The address and the path of four parts.
unfoldable pub of_four : List Text → Result ProviderError (Text × Text)
of_four (a ∷ b ∷ c ∷ d ∷ []) = ok (a, b ++ b'/' ∷ (c ++ b'/' ∷ d))
of_four [] = err bad_resource_path
of_four (_ ∷ []) = err bad_resource_path
of_four (_ ∷ _ ∷ []) = err bad_resource_path
of_four (_ ∷ _ ∷ _ ∷ []) = err bad_resource_path
of_four (_ ∷ _ ∷ _ ∷ _ ∷ _ ∷ _) = err bad_resource_path

unfoldable pub normalize_path : Text → Result ProviderError (Text × Text)
normalize_path keyid =
    of_four (split b'/' (get_or keyid (strip_prefix kbs_resource_url_prefix keyid)))

-- `params[0]`, which panics without one
unfoldable pub first_param : List Text → Result ProviderError Text
first_param [] = err no_params
first_param (p ∷ _) = ok p

module _ (outside : Provider) (aes : Aes) (base64 : Base64) (serde : Serde AnnotationPacket) where
  open outside use {State, Address, KeyPair, read_file, random_bytes, uuid, sign, post}

  abbrev pub W : Type 0 → Type 0
  W A = Steps State ProviderError A

  abbrev pub ask : {A : Type 0} → ProviderError → (State → State × Option A) → W A
  ask e call s = let (s', o) = call s in (s', ok_or o e)

  -- The identifier that was asked for, or a new one.
  unfoldable pub kid_or_new : Option Text → W Text
  kid_or_new (some kid) s = (s, ok kid)
  kid_or_new none s = let (s', tag) = uuid s in (s', ok (default_key_repo_path ++ b'/' ∷ tag))

  unfoldable pub key_from_file : Text → Option Text → W (List ℕ × List ℕ × Text)
  key_from_file path keyid = do
    key ← ask read_key_failed (λ s. read_file s path)
    iv ← ask no_randomness (λ s. random_bytes s 12)
    kid ← kid_or_new keyid
    lift (ok (key, iv, kid))

  unfoldable pub random_key : Option Text → W (List ℕ × List ℕ × Text)
  random_key keyid = do
    iv ← ask no_randomness (λ s. random_bytes s 12)
    key ← ask no_randomness (λ s. random_bytes s 32)
    kid ← kid_or_new keyid
    lift (ok (key, iv, kid))

  unfoldable pub key_of_path : Option Text → Option Text → W (List ℕ × List ℕ × Text)
  key_of_path (some path) keyid = key_from_file path keyid
  key_of_path none keyid = random_key keyid

  -- The key, the IV and the key's identifier.
  unfoldable pub generate_key_parameters : InputParams → W (List ℕ × List ℕ × Text)
  generate_key_parameters input_params s =
      if input_params.sample
      then (s, ok (hardcoded_key, zero_iv, hard_coded_keyid))
      else key_of_path input_params.keypath input_params.keyid s

  unfoldable pub register_kek : KeyPair → Address → List ℕ → Text → W (Unit {0})
  register_kek private_key kbs_addr key kid = do
    let path = get_or kid (strip_prefix (b'/' ∷ []) kid)
    token ← ask sign_failed (λ s. sign s private_key)
    λ s.
        let (s', sent) = post s kbs_addr (bytes "kbs/v0/resource/" ++ path) token key in
        (s', ensure sent register_failed)

  -- A key is registered if the broker and the key pair are known, and it is not the sample.
  unfoldable pub register_if : Option Address → Option KeyPair → Bool → List ℕ → Text → W (Unit {0})
  register_if (some addr) (some private_key) false key path = register_kek private_key addr key path
  register_if (some addr) (some private_key) true key path = lift (ok tt)
  register_if (some addr) none sample key path = lift (ok tt)
  register_if none private_key sample key path = lift (ok tt)

  abbrev pub packet_of : Text → Text → List ℕ → List ℕ → Algorithm → AnnotationPacket
  packet_of kbs_addr k_path encrypted iv algorithm = record {
    kid = kbs_resource_url_prefix ++ (kbs_addr ++ b'/' ∷ k_path);
    wrapped_data = base64.encode encrypted;
    iv = base64.encode iv;
    wrap_type = algorithm_name algorithm;
  }

  -- The options, wrapped under the key that was chosen.
  unfoldable pub wrap_with :
      Option Address → Option KeyPair → List ℕ → InputParams → List ℕ × List ℕ × Text → W Text
  wrap_with addr private_key optsdata input_params (key, iv, kid) = do
    path ← lift (normalize_path kid)
    encrypted ← lift (ok_or (encrypt aes optsdata key iv input_params.algorithm) encrypt_failed)
    _ ← register_if addr private_key input_params.sample key path.1
    lift (ok (serde.to_string (packet_of path.0 path.1 encrypted iv input_params.algorithm)))

  unfoldable pub wrap_for : Option Address → Option KeyPair → List ℕ → InputParams → W Text
  wrap_for addr private_key optsdata input_params = do
    chosen ← generate_key_parameters input_params
    wrap_with addr private_key optsdata input_params chosen

  unfoldable pub enc_optsdata_gen_anno :
      Option Address → Option KeyPair → List ℕ → List Text → W Text
  enc_optsdata_gen_anno addr private_key optsdata params = do
    param ← lift (first_param params)
    wrap_for addr private_key optsdata (parse_input_params param)
