-- ===== src/Ocicrypt/Tests.antt =====
-- Runs of the encryption on small layers.
use coco_guest_components.Common.{
  ℕ, ◌≡◌, refl, ◌≢◌, ◌⊎◌, true, false, is_some, Memᴰ, All, Option, none, some, List, [], ◌∷◌, ◌++◌,
  concat, length, ok, err, arith,
}
use coco_guest_components.Text.{Text, bytes, contains, split, split_once, strip_prefix, ◌=ₜ◌}
use coco_guest_components.External.Files.{Files}
use coco_guest_components.Ocicrypt.Helpers.{
  process_x509_certs, process_pwd_string, key_and_password, create_decrypt_config,
}
use coco_guest_components.Ocicrypt.Helpers.Laws.{AreRead, built, create_decrypt_config_lem}
use coco_guest_components.Text.Map.{lookup, insert}
use coco_guest_components.Ocicrypt.Setup.{
  test_crypto, test_crypto_laws, test_encoding, test_encoding_laws,
}
use coco_guest_components.Ocicrypt.Setup.Layer.{
  wrapper, dc, ec, cons-ne-nil, wrapper-Unwraps, layer, layer-AreNonempty, key, nonce, other_id,
}
use coco_guest_components.Ocicrypt.Options.{LayerBlockCipherOptions, get_opt, default_options}
use coco_guest_components.Ocicrypt.Cipher
use coco_guest_components.Ocicrypt.Cipher.{
  AesCtrBlockCipher, new_handler, hmac_mismatch, choose_nonce, store_nonce, init, handler_decrypt,
  read_to_end,
}
use coco_guest_components.Ocicrypt.Cipher.Laws.{chunks, AreNonempty, running, start}
use coco_guest_components.Ocicrypt.Cipher.Authentic.{decrypt_authentic}
use coco_guest_components.Ocicrypt.KeyWrap.{Params, key_wrappers_annotations, get_key_wrapper}
use coco_guest_components.Ocicrypt.Config.{decrypt_with_priv_keys}
use coco_guest_components.Ocicrypt.Config.Laws.{
  IsOther, Built, priv_keys, key_providers, IsPaired, Built-IsPaired,
}
use coco_guest_components.Ocicrypt.Config.Provider.{
  find, take_chars, rest_of_char, past_char, provider_param, with_key_provider,
}
use coco_guest_components.Ocicrypt.Encryption.{
  Annotations, pubopts_key, append_annotation, encrypt_layer, finalize_annotations, wrap_all,
  with_pubopts, pre_wrap_key, pre_unwrap_key, decrypt_layer, find_encrypted, try_wrappers,
  decrypt_layer_key_opts_data, start_decryption, get_layer_key_opts, get_layer_pub_opts,
  unwrap_first,
}
use coco_guest_components.Ocicrypt.Encryption.Wrapping.{
  annotation_of, first_unwrapped, pre_unwrap_key-pre_wrap_key,
}
use coco_guest_components.Ocicrypt.Encryption.Single.{only}
use coco_guest_components.Ocicrypt.Encryption.RoundTrip.{layer_options}
use coco_guest_components.Ocicrypt.Encryption.Laws.{Decrypts, layer_round_trip}
use coco_guest_components.Ocicrypt.Encryption.Rewrap.{already_encrypted_lost}

abbrev other_key : List (List ℕ)
other_key = (9 ∷ 9 ∷ []) ∷ []

pre_unwrap_key-pre_wrap_key_example :
    (t : Text) × (pre_wrap_key test_encoding wrapper ec
        (annotation_of test_encoding test_encoding_laws other_key)
        (3 ∷ [])
      ≡ ok t)
    × (pre_unwrap_key test_encoding wrapper dc t
        ≡ first_unwrapped wrapper dc (other_key ++ (7 ∷ 3 ∷ []) ∷ []))
pre_unwrap_key-pre_wrap_key_example =
    pre_unwrap_key-pre_wrap_key test_encoding test_encoding_laws wrapper ec dc other_key
      (7 ∷ 3 ∷ []) (3 ∷ []) (cons-ne-nil 9 (9 ∷ []), tt) refl (cons-ne-nil 7 (3 ∷ []))

layer_round_trip_example :
    (reader finished : AesCtrBlockCipher test_crypto) × (lbco : LayerBlockCipherOptions)
    × (secret : List ℕ) × (annotations : Annotations) × (encrypt_layer test_encoding test_crypto
          (only (bytes "jwe") wrapper)
          ec
          (chunks layer)
          none
          (bytes "sha256:1")
          (some key)
          (some nonce)
        ≡ ok (some reader, lbco))
    × (read_to_end test_crypto 5 reader [] ≡ some (finished, ok secret))
    × (length secret ≡ 3)
    × (finalize_annotations test_encoding test_crypto
          (only (bytes "jwe") wrapper)
          lbco
          ec
          none
          (some finished)
        ≡ ok annotations)
    × ((cs : List (List ℕ))
        → AreNonempty cs
        → concat cs ≡ secret
        → Decrypts test_crypto test_crypto_laws test_encoding test_encoding_laws
            (bytes "jwe")
            wrapper
            dc
            annotations
            (bytes "sha256:1")
            cs
            (1 ∷ 2 ∷ 3 ∷ []))
layer_round_trip_example =
    layer_round_trip test_crypto test_crypto_laws test_encoding test_encoding_laws (bytes "jwe")
      wrapper ec dc layer (bytes "sha256:1") key nonce 5 other_id wrapper-Unwraps layer-AreNonempty
      refl refl (omega arith)

abbrev layer_tag : List ℕ
layer_tag = 1 ∷ key ++ 1 ∷ 2 ∷ 3 ∷ []

-- The annotations of the layer, encrypted, and what encrypting it again makes of them.
abbrev encrypted_layer : Annotations
encrypted_layer =
    (
      bytes "id",
      test_encoding.base64_encode
          (7 ∷ test_encoding.private_to_vec (layer_options key nonce [] layer_tag).private),
    )
    ∷ (
      pubopts_key,
      test_encoding.base64_encode
          (test_encoding.public_to_vec (layer_options key nonce [] layer_tag).public),
    )
    ∷ []

abbrev rewrapped : Annotations
rewrapped =
    (
      bytes "id",
      test_encoding.base64_encode
            (7 ∷ test_encoding.private_to_vec (layer_options key nonce [] layer_tag).private)
          ++ b',' ∷ 107 ∷ [],
    )
    ∷ (pubopts_key, [])
    ∷ []

no_layer_reader :
    encrypt_layer test_encoding test_crypto
      (only (bytes "jwe") wrapper)
      ec
      (chunks layer)
      (some encrypted_layer)
      (bytes "sha256:1")
      (some key)
      (some nonce)
    ≡ ok (none, default_options)
unfolding encrypt_layer find_encrypted decrypt_layer_key_opts_data try_wrappers get_layer_key_opts
    get_layer_pub_opts pre_unwrap_key unwrap_first key_wrappers_annotations get_key_wrapper lookup
    insert ◌=ₜ◌ strip_prefix split
no_layer_reader = refl

finalized :
    finalize_annotations test_encoding test_crypto
      (only (bytes "jwe") wrapper)
      default_options
      ec
      (some encrypted_layer)
      none
    ≡ ok rewrapped
unfolding finalize_annotations wrap_all with_pubopts key_wrappers_annotations get_key_wrapper lookup
    insert ◌=ₜ◌ pre_wrap_key append_annotation
finalized = refl

jwe_registered :
    Memᴰ (bytes "id", bytes "jwe") (key_wrappers_annotations (only (bytes "jwe") wrapper))
unfolding key_wrappers_annotations insert
jwe_registered = Memᴰ.head refl

has_wrapped_key : is_some (lookup (bytes "id") encrypted_layer) ≡ true
unfolding lookup ◌=ₜ◌
has_wrapped_key = refl

-- No reader, and the one that decrypts the layer from its own annotations.
abbrev not_encrypted : Option (AesCtrBlockCipher test_crypto)
not_encrypted = none

abbrev decrypted : Option (AesCtrBlockCipher test_crypto) × Text
decrypted = (some (running test_crypto 32 false (start test_crypto tt layer_tag key layer)), [])

decrypts_before :
    decrypt_layer test_encoding test_crypto
      (only (bytes "jwe") wrapper)
      dc
      (chunks layer)
      (some encrypted_layer)
      false
      none
    ≡ ok decrypted
unfolding decrypt_layer start_decryption handler_decrypt new_handler Cipher.new init choose_nonce
    store_nonce get_opt decrypt_layer_key_opts_data try_wrappers get_layer_key_opts
    get_layer_pub_opts pre_unwrap_key unwrap_first key_wrappers_annotations get_key_wrapper lookup
    insert ◌=ₜ◌ strip_prefix split
decrypts_before = refl

already_encrypted_lost_example :
    (not_encrypted ≡ none)
    × (decrypt_layer test_encoding test_crypto
          (only (bytes "jwe") wrapper)
          dc
          (chunks layer)
          (some rewrapped)
          false
          none
        ≢ ok decrypted)
already_encrypted_lost_example =
    already_encrypted_lost test_encoding test_encoding_laws test_crypto (only (bytes "jwe") wrapper)
      (only (bytes "jwe") wrapper) ec dc encrypted_layer rewrapped (bytes "id") (bytes "jwe")
      (bytes "sha256:1") (chunks layer) (chunks layer) (some key) (some nonce) none not_encrypted
      default_options decrypted refl jwe_registered has_wrapped_key no_layer_reader finalized

abbrev idle : AesCtrBlockCipher test_crypto
idle = record { key_len = 32; encrypt = false; state = none }

set_up :
    handler_decrypt test_crypto idle (chunks layer) (layer_options key nonce [] layer_tag) none
    ≡ ok (
      running test_crypto 32 false (start test_crypto tt layer_tag key layer),
      layer_options key nonce [] layer_tag,
    )
unfolding handler_decrypt init choose_nonce store_nonce get_opt lookup ◌=ₜ◌
set_up = refl

decrypt_authentic_example :
    (finished : AesCtrBlockCipher test_crypto) × (m : List ℕ) × (plain : List ℕ) × (some key
      ≡ some m)
    × (((1 ∷ m ++ 1 ∷ 2 ∷ 3 ∷ [] ≡ layer_tag)
          × (read_to_end test_crypto 3
                (running test_crypto 32 false (start test_crypto tt layer_tag key layer))
                []
              ≡ some (finished, ok plain))
          × (length plain ≡ 3))
        ⊎ ((1 ∷ m ++ 1 ∷ 2 ∷ 3 ∷ [] ≢ layer_tag)
            × (read_to_end test_crypto 3
                  (running test_crypto 32 false (start test_crypto tt layer_tag key layer))
                  []
                ≡ some (finished, err hmac_mismatch))))
decrypt_authentic_example =
    decrypt_authentic test_crypto test_crypto_laws idle
      (running test_crypto 32 false (start test_crypto tt layer_tag key layer)) layer
      (layer_options key nonce [] layer_tag) (layer_options key nonce [] layer_tag) none 3 set_up
      layer-AreNonempty (omega arith)

-- Two keys with their passwords, and then a call with one password too few.
abbrev two_keys : Params
two_keys = (decrypt_with_priv_keys ((1 ∷ []) ∷ (2 ∷ []) ∷ []) ([] ∷ (8 ∷ []) ∷ []) []).0

abbrev after_failure : Params
after_failure = (decrypt_with_priv_keys ((3 ∷ []) ∷ []) [] two_keys).0

abbrev providers : List Text
providers = bytes "provider:attestation-agent" ∷ []

abbrev all_builders : Params
all_builders = (with_key_provider providers after_failure).0

providers-IsOther : All IsOther providers
unfolding provider_param find take_chars rest_of_char past_char ◌=ₜ◌
providers-IsOther = ((refl, refl), tt)

Built-IsPaired_example : IsPaired all_builders
Built-IsPaired_example = Built-IsPaired all_builders (
    key_providers
      (priv_keys (priv_keys Built.new ((1 ∷ []) ∷ (2 ∷ []) ∷ []) ([] ∷ (8 ∷ []) ∷ []))
        ((3 ∷ []) ∷ []) [])
      providers providers-IsOther)

-- Files whose content is their name.
abbrev files : Files
files = record { read = λ p. some p; exists = λ p. false; read_fd = λ negative n. none }

abbrev key_files : List Text
key_files = bytes "a:pass=x" ∷ bytes "b" ∷ []

are_read : AreRead files key_files ((bytes "a", bytes "x") ∷ (bytes "b", []) ∷ [])
unfolding key_and_password process_pwd_string split_once strip_prefix
are_read = (refl, refl, (refl, refl, tt))

no_certs : process_x509_certs files key_files ≡ ok []
unfolding process_x509_certs contains
no_certs = refl

create_decrypt_config_lem_example :
    create_decrypt_config files key_files []
    ≡ ok (record { param = built files [] ((bytes "a", bytes "x") ∷ (bytes "b", []) ∷ []) })
create_decrypt_config_lem_example =
    create_decrypt_config_lem files key_files (bytes "a") (bytes "x") ((bytes "b", []) ∷ []) []
      are_read no_certs
