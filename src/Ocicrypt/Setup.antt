-- ===== src/Ocicrypt/Setup.antt =====
-- A concrete cipher, MAC and encoding at which the laws of the crates hold.
pub mod Layer
use coco_guest_components.Common.{
  ℕ, zero, suc, ◌+◌, ◌-◌, ◌≡◌, refl, sym, ap, ◌≢◌, Option, none, some, List, [], ◌∷◌, ◌++◌,
  append_assoc, append-nil, length, arith,
}
use coco_guest_components.Text.{Text, IsFree}
use coco_guest_components.External.Crypto.{Crypto, CryptoLaws}
use coco_guest_components.External.Encoding.{Encoding, EncodingLaws}
use coco_guest_components.Ocicrypt.Options.{
  PrivateLayerBlockCipherOptions, PublicLayerBlockCipherOptions,
}

-- Bytes in pairs, each the other's ciphertext.
abbrev pub flip : ℕ → ℕ
flip zero = 1
flip (suc zero) = 0
flip (suc (suc n)) = suc (suc (flip n))

abbrev pub flips : List ℕ → List ℕ
flips [] = []
flips (x ∷ xs) = flip x ∷ flips xs

flip-flip : (n : ℕ) → flip (flip n) ≡ n
flip-flip zero = refl
flip-flip (suc zero) = refl
flip-flip (suc (suc n)) = ap (λ m. suc (suc m)) (flip-flip n)

flips-flips : (xs : List ℕ) → flips (flips xs) ≡ xs
flips-flips [] = refl
flips-flips (x ∷ xs) = rw (flip-flip x, flips-flips xs) refl

flips-append : (xs ys : List ℕ) → flips (xs ++ ys) ≡ flips xs ++ flips ys
flips-append [] ys = refl
flips-append (x ∷ xs) ys = ap (λ r. flip x ∷ r) (flips-append xs ys)

length-flips : (xs : List ℕ) → length (flips xs) ≡ length xs
length-flips [] = refl
length-flips (x ∷ xs) = ap suc (length-flips xs)

abbrev pub test_crypto : Crypto
test_crypto = record {
  Cipher = Unit {0};
  Mac = List ℕ;
  cipher_new = λ key nonce. tt;
  apply_keystream = λ s xs. (flips xs, s);
  mac_new = λ key. some key;
  mac_update = λ m xs. m ++ xs;
  mac_finalize = λ m. 1 ∷ m;
}

pub test_crypto_laws : CryptoLaws test_crypto
test_crypto_laws = record {
  apply-append = λ s xs ys. ap (λ r. (r, s)) (flips-append xs ys);
  apply-nil = λ s. refl;
  length-apply = λ s xs. length-flips xs;
  apply_twice = λ s xs. flips-flips xs;
  update-append = λ m xs ys. sym (append_assoc m xs ys);
  update-nil = λ m. append-nil m;
  takes_key = λ key. (key, refl);
  tag_nonempty = λ m h. absurd (ground (arith, h));
}

-- Bytes moved behind the alphabet.
abbrev pub shift : List ℕ → Text
shift [] = []
shift (x ∷ xs) = (x + 100) ∷ shift xs

abbrev pub unshift : Text → List ℕ
unshift [] = []
unshift (x ∷ xs) = (x - 100) ∷ unshift xs

unshift-shift : (xs : List ℕ) → unshift (shift xs) ≡ xs
unshift-shift [] = refl
unshift-shift (x ∷ xs) = rw (unshift-shift xs) (ap (λ v. v ∷ xs) (omega arith))

shift-IsFree : (xs : List ℕ) → IsFree b',' (shift xs)
shift-IsFree [] = tt
shift-IsFree (x ∷ xs) = (λ h. absurd (omega arith), shift-IsFree xs)

shift-ne-nil : (xs : List ℕ) → xs ≢ [] → shift xs ≢ []
shift-ne-nil [] n h = absurd (n refl)
shift-ne-nil (x ∷ xs) n h = absurd (ground (arith, h))

-- Fields, each ended by a zero.
abbrev pub field : List ℕ → List ℕ → List ℕ
field [] rest = 0 ∷ rest
field (x ∷ xs) rest = suc x ∷ field xs rest

abbrev pub into_first : ℕ → List (List ℕ) → List (List ℕ)
into_first x [] = []
into_first x (f ∷ fs) = (x ∷ f) ∷ fs

abbrev pub fields : List ℕ → List (List ℕ)
fields [] = []
fields (zero ∷ rest) = [] ∷ fields rest
fields (suc x ∷ rest) = into_first x (fields rest)

pub fields-field : (f rest : List ℕ) → fields (field f rest) ≡ f ∷ fields rest
fields-field [] rest = refl
fields-field (x ∷ f) rest = rw (fields-field f rest) refl

abbrev pub put_options : List (Text × List ℕ) → List ℕ
put_options [] = []
put_options ((k, v) ∷ m) = field k (field v (put_options m))

abbrev pub get_options : List (List ℕ) → List (Text × List ℕ)
get_options (k ∷ v ∷ fs) = (k, v) ∷ get_options fs
get_options (_ ∷ []) = []
get_options [] = []

get-put : (m : List (Text × List ℕ)) → get_options (fields (put_options m)) ≡ m
get-put [] = refl
get-put ((k, v) ∷ m) =
    rw (fields-field k (field v (put_options m)), fields-field v (put_options m), get-put m) refl

abbrev pub private_of : List (List ℕ) → Option PrivateLayerBlockCipherOptions
private_of (key ∷ digest ∷ fs) =
    some (record { symmetric_key = key; cipher_options = get_options fs; digest = digest })
private_of (_ ∷ []) = none
private_of [] = none

abbrev pub public_of : List (List ℕ) → Option PublicLayerBlockCipherOptions
public_of (cipher_type ∷ hmac ∷ fs) =
    some (record { cipher_type = cipher_type; cipher_options = get_options fs; hmac = hmac })
public_of (_ ∷ []) = none
public_of [] = none

field-ne-nil : (f rest : List ℕ) → field f rest ≢ []
field-ne-nil [] rest h = absurd (ground (arith, h))
field-ne-nil (x ∷ f) rest h = absurd (ground (arith, h))

abbrev pub test_encoding : Encoding
test_encoding = record {
  base64_encode = shift;
  base64_decode = λ t. some (unshift t);
  private_to_vec = λ o. field o.symmetric_key (field o.digest (put_options o.cipher_options));
  private_from_slice = λ bs. private_of (fields bs);
  public_to_vec = λ o. field o.cipher_type (field o.hmac (put_options o.cipher_options));
  public_from_slice = λ bs. public_of (fields bs);
}

private_back :
    (o : PrivateLayerBlockCipherOptions)
    → private_of (fields (field o.symmetric_key (field o.digest (put_options o.cipher_options))))
      ≡ some o
private_back o =
    rw
      (
        fields-field o.symmetric_key (field o.digest (put_options o.cipher_options)),
        fields-field o.digest (put_options o.cipher_options),
        get-put o.cipher_options,
      )
      refl

public_back :
    (o : PublicLayerBlockCipherOptions)
    → public_of (fields (field o.cipher_type (field o.hmac (put_options o.cipher_options))))
      ≡ some o
public_back o =
    rw
      (
        fields-field o.cipher_type (field o.hmac (put_options o.cipher_options)),
        fields-field o.hmac (put_options o.cipher_options),
        get-put o.cipher_options,
      )
      refl

pub test_encoding_laws : EncodingLaws test_encoding
test_encoding_laws = record {
  base64_decode-encode = λ bs. ap some (unshift-shift bs);
  base64-IsFree = shift-IsFree;
  base64-ne-nil = shift-ne-nil;
  private_from-to = private_back;
  public_from-to = public_back;
  private-ne-nil =
      λ o. field-ne-nil o.symmetric_key (field o.digest (put_options o.cipher_options));
}
