-- ===== src/Hub/Setup.antt =====
-- A concrete encoding of packets and secrets, clients and ciphers, at which the laws of the crates hold.
use coco_guest_components.Common.{
  ℕ, ◌+◌, ◌≡◌, refl, ap, ◌∙◌, Option, none, some, List, [], ◌∷◌, arith,
}
use coco_guest_components.Text.{Text, IsFree}
use coco_guest_components.External.Aes.{Aes, AesLaws}
use coco_guest_components.External.Kms.{KmsClients}
use coco_guest_components.External.Packets.{Base64, Base64Laws, Serde, SerdeLaws}
use coco_guest_components.Ocicrypt.Setup.{
  shift, unshift, field, fields, fields-field, test_encoding_laws,
}
use coco_guest_components.Symmetric.{WrapType, aes256_gcm, aes256_ctr}
use coco_guest_components.Hub.Secret.{Secret, SecretContent, envelope, vault}

abbrev pub put : List (List ℕ) → List ℕ
put [] = []
put (f ∷ fs) = field f (put fs)

pub fields-put : (fs : List (List ℕ)) → fields (put fs) ≡ fs
fields-put [] = refl
fields-put (f ∷ fs) = fields-field f (put fs) ∙ ap (λ rest. f ∷ rest) (fields-put fs)

abbrev pub base64 : Base64
base64 = record {
  encode = shift;
  decode = λ t. some (unshift t);
  url_safe_encode = shift;
  url_safe_decode = λ t. some (unshift t);
}

shift-IsFree : (xs : List ℕ) → IsFree b'.' (shift xs)
shift-IsFree [] = tt
shift-IsFree (x ∷ xs) = (λ h. absurd (omega arith), shift-IsFree xs)

pub base64_laws : Base64Laws base64
base64_laws = record {
  decode-encode = test_encoding_laws.base64_decode-encode;
  url_safe_decode-encode = test_encoding_laws.base64_decode-encode;
  url_safe-IsFree = shift-IsFree;
}

-- The ciphertext is the plaintext.
abbrev pub aes : Aes
aes = record {
  gcm_encrypt = λ key plaintext iv. some plaintext;
  gcm_decrypt = λ key ciphertext iv. some ciphertext;
  ctr_apply = λ key plaintext iv. some plaintext;
}

pub aes_laws : AesLaws aes
aes_laws = record {
  gcm_decrypt-encrypt = λ key plaintext iv ciphertext h. ap some (cc);
  ctr_apply-apply = λ key plaintext iv ciphertext h. ap some (cc);
}

-- A vault that has one key under every name.
abbrev pub kms : List ℕ → KmsClients
kms key = record {
  State = ℕ;
  Json = Unit {0};
  empty = tt;
  Decrypter = Unit {0};
  Getter = Unit {0};
  aliyun_decrypter = λ s settings. (s, some tt);
  ehsm_decrypter = λ s settings. (s, some tt);
  kbc_client = λ s. (s + 1, some tt);
  aliyun_getter = λ s settings. (s, some tt);
  decrypt = λ s d ciphertext id context. (s, some ciphertext);
  get_secret = λ s g name context. (s + 1, some key);
}

abbrev pub type_field : WrapType → List ℕ
type_field aes256_gcm = []
type_field aes256_ctr = 0 ∷ []

abbrev pub type_of : List ℕ → WrapType
type_of [] = aes256_gcm
type_of (_ ∷ _) = aes256_ctr

abbrev pub secret_fields : Text → SecretContent (Unit {0}) → List (List ℕ)
secret_fields v (envelope e) =
    v
    ∷ e.key_id
    ∷ e.encrypted_key
    ∷ e.encrypted_data
    ∷ type_field e.wrap_type
    ∷ e.iv
    ∷ e.provider
    ∷ []
secret_fields v (vault e) = v ∷ e.name ∷ e.provider ∷ []

abbrev pub secret_of : List (List ℕ) → Option (Secret (Unit {0}))
secret_of (v ∷ key_id ∷ key ∷ encrypted ∷ wrap_type ∷ iv ∷ provider ∷ []) = some (record {
  version = v;
  content = envelope (record {
    key_id = key_id;
    encrypted_key = key;
    encrypted_data = encrypted;
    wrap_type = type_of wrap_type;
    iv = iv;
    provider = provider;
    provider_settings = tt;
    annotations = tt;
  });
})
secret_of (v ∷ name ∷ provider ∷ []) = some (record {
  version = v;
  content =
      vault (record { name = name; provider = provider; provider_settings = tt; annotations = tt });
})
secret_of _ = none

type_back : (t : WrapType) → type_of (type_field t) ≡ t
type_back aes256_gcm = refl
type_back aes256_ctr = refl

secret_back :
    (v : Text) (c : SecretContent (Unit {0}))
    → secret_of (secret_fields v c) ≡ some (record { version = v; content = c })
secret_back v (envelope e) = rw (type_back e.wrap_type) refl
secret_back v (vault e) = refl

abbrev pub secret_serde : Serde (Secret (Unit {0}))
secret_serde = record {
  to_string = λ s. put (secret_fields s.version s.content);
  from_slice = λ bs. secret_of (fields bs);
}

pub secret_serde_laws : SerdeLaws secret_serde
secret_serde_laws = record {
  from_slice-to_string = λ s.
      ap secret_of (fields-put (secret_fields s.version s.content))
      ∙ secret_back s.version s.content;
}
