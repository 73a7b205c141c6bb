-- ===== src/Ocicrypt/Cipher.antt =====
-- ocicrypt-rs/src/blockcipher/aes_ctr.rs and the handler of mod.rs: a reader that encrypts or decrypts
-- what it reads and authenticates the ciphertext. A reader `R` is the list of what its calls of
-- `read` give; at the end every call gives no bytes.
pub mod Laws
pub mod Authentic
use coco_guest_components.Common.{
  ℕ, zero, suc, ◌*◌, ◌≡◌, Bool, true, false, not, ◌&&◌, Option, none, some, List, [], ◌∷◌, ◌++◌,
  ◌==◌, if◌then◌else◌, length, Result, Checked, ok, err, ensure, ok_or, ◌>>=◌, ◌>>◌,
}
use coco_guest_components.Text.{Text, bytes, ◌=ₜ◌, is_empty}
use coco_guest_components.Text.Map.{lookup, insert}
use coco_guest_components.External.Crypto.{Crypto}
use coco_guest_components.Ocicrypt.Options.{LayerBlockCipherOptions, get_opt}

abbrev pub aes256_key_size : ℕ
aes256_key_size = 32

abbrev pub aes256_nonce_size : ℕ
aes256_nonce_size = 16

-- `AES256CTR`
abbrev pub aes256ctr : Text
aes256ctr = bytes "AES_256_CTR_HMAC_SHA256"

abbrev pub nonce_key : Text
nonce_key = bytes "nonce"

pub data CipherError : Type 0 where
  bits_not_supported invalid_key_length no_hmac invalid_nonce_length no_randomness : CipherError
  mac_failed unsupported_cipher not_initialized not_complete : CipherError

pub data IoError : Type 0 where
  unsupported reader_failed hmac_mismatch : IoError

-- What one call of the inner reader gives.
pub data IoEvent : Type 0 where
  chunk : List ℕ → IoEvent
  failed : IoEvent

abbrev pub next_event : List IoEvent → IoEvent × List IoEvent
next_event [] = (chunk [], [])
next_event (e ∷ es) = (e, es)

module _ (crypto : Crypto) where
  open crypto use {Cipher, Mac, cipher_new, apply_keystream, mac_new, mac_update, mac_finalize}

  pub record AesCtrBlockCipherState : Type 0 where
    pub done : Bool
    pub cipher : Cipher
    pub exp_hmac : List ℕ
    pub hmac : Mac
    pub reader : List IoEvent

  pub record AesCtrBlockCipher : Type 0 where
    pub key_len : ℕ
    pub encrypt : Bool
    pub state : Option AesCtrBlockCipherState

  -- `AESCTRBlockCipher::new`
  unfoldable pub new : ℕ → Result CipherError AesCtrBlockCipher
  new bits = do
    ensure (bits == aes256_key_size * 8) bits_not_supported
    ok (record { key_len = aes256_key_size; encrypt = false; state = none })

  -- The nonce: the stored one, which must have its length, or random bytes.
  unfoldable pub choose_nonce : Option (List ℕ) → Option (List ℕ) → Result CipherError (List ℕ)
  choose_nonce (some v) random = do
    ensure (length v == aes256_nonce_size) invalid_nonce_length
    ok v
  choose_nonce none random = ok_or random no_randomness

  -- `entry("nonce").or_insert(nonce)` on the private options
  unfoldable pub store_nonce : List ℕ → LayerBlockCipherOptions → LayerBlockCipherOptions
  store_nonce nonce opts = elim (lookup nonce_key opts.private.cipher_options) [
    | some _ ↦ opts
    | none ↦ record opts {
      private = record opts.private {
        cipher_options = insert nonce_key nonce opts.private.cipher_options;
      };
    }
  ]

  -- `init`; `random` is what `rand_bytes` fills the nonce with, `none` its failure.
  unfoldable pub init :
      AesCtrBlockCipher
      → Bool
      → List IoEvent
      → LayerBlockCipherOptions
      → Option (List ℕ)
      → Result CipherError (AesCtrBlockCipher × LayerBlockCipherOptions)
  init c encrypt reader opts random = do
    ensure (length opts.private.symmetric_key == aes256_key_size) invalid_key_length
    ensure (not (not encrypt && is_empty opts.public.hmac)) no_hmac
    nonce ← choose_nonce (get_opt opts nonce_key) random
    hmac ← ok_or (mac_new opts.private.symmetric_key) mac_failed
    ok (
      record c {
        encrypt = encrypt;
        state = some (record {
          done = false;
          cipher = cipher_new opts.private.symmetric_key nonce;
          exp_hmac = opts.public.hmac;
          hmac = hmac;
          reader = reader;
        });
      },
      store_nonce nonce opts,
    )

  -- The part of `read` behind `state.reader.read(buf)?`; `buf` holds what was read.
  unfoldable pub process :
      Bool → AesCtrBlockCipherState → List ℕ → AesCtrBlockCipherState × Result IoError (List ℕ)
  process false st [] = (
    record st { done = true },
    if mac_finalize st.hmac =ₜ st.exp_hmac then ok [] else err hmac_mismatch,
  )
  process false st (b ∷ buf) =
      let (plain, cipher) = apply_keystream st.cipher (b ∷ buf) in
      (record st { hmac = mac_update st.hmac (b ∷ buf); cipher = cipher }, ok plain)
  process true st [] = (record st { done = true; exp_hmac = mac_finalize st.hmac }, ok [])
  process true st (b ∷ buf) =
      let (secret, cipher) = apply_keystream st.cipher (b ∷ buf) in
      (record st { hmac = mac_update st.hmac secret; cipher = cipher }, ok secret)

  unfoldable pub on_event :
      Bool → AesCtrBlockCipherState → IoEvent → AesCtrBlockCipherState × Result IoError (List ℕ)
  on_event encrypt st failed = (st, err reader_failed)
  on_event encrypt st (chunk buf) = process encrypt st buf

  -- `read`: the object afterwards, and the bytes that the call puts into the buffer.
  unfoldable pub read : AesCtrBlockCipher → AesCtrBlockCipher × Result IoError (List ℕ)
  read c = elim c.state [
    | none ↦ (c, err unsupported)
    | some st ↦
        if st.done
        then (c, ok [])
        else let (event, reader) = next_event st.reader in
          let (st', result) = on_event c.encrypt (record st { reader = reader }) event in
          (record c { state = some st' }, result)
  ]

  -- `read_to_end`: calls of `read` until one gives no bytes or fails.
  unfoldable pub read_to_end :
      ℕ → AesCtrBlockCipher → List ℕ → Option (AesCtrBlockCipher × Result IoError (List ℕ))
  read_to_end zero c out = none
  read_to_end (suc f) c out =
      let (c', result) = read c in
      elim result [
        | err e ↦ some (c', err e)
        | ok buf ↦ elim buf [
          | [] ↦ some (c', ok out)
          | b ∷ rest ↦ read_to_end f c' (out ++ b ∷ rest)
        ]
      ]

  -- `finalized_lbco`
  unfoldable pub finalized_lbco :
      AesCtrBlockCipher → LayerBlockCipherOptions → Result CipherError LayerBlockCipherOptions
  finalized_lbco c opts = do
    st ← ok_or c.state not_initialized
    ensure st.done not_complete
    ok (record opts { public = record opts.public { hmac = st.exp_hmac } })

  -- `LayerBlockCipherHandler::new`
  unfoldable pub new_handler : Result CipherError AesCtrBlockCipher
  new_handler = new 256

  -- `LayerBlockCipherHandler::encrypt`, with the random bytes for the key and for the nonce
  unfoldable pub handler_encrypt :
      AesCtrBlockCipher
      → List IoEvent
      → Text
      → LayerBlockCipherOptions
      → Option (List ℕ)
      → Option (List ℕ)
      → Result CipherError (AesCtrBlockCipher × LayerBlockCipherOptions)
  handler_encrypt c reader typ opts random_key random_nonce = do
    ensure (typ =ₜ aes256ctr) unsupported_cipher
    key ← ok_or random_key no_randomness
    init c true reader
        (record opts {
          private = record opts.private { symmetric_key = key };
          public = record opts.public { cipher_type = aes256ctr };
        })
        random_nonce

  -- `LayerBlockCipherHandler::decrypt`
  unfoldable pub handler_decrypt :
      AesCtrBlockCipher
      → List IoEvent
      → LayerBlockCipherOptions
      → Option (List ℕ)
      → Result CipherError (AesCtrBlockCipher × LayerBlockCipherOptions)
  handler_decrypt c reader opts random_nonce = do
    ensure (opts.public.cipher_type =ₜ aes256ctr) unsupported_cipher
    init c false reader opts random_nonce
