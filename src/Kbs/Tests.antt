-- ===== src/Kbs/Tests.antt =====
-- A broker that refuses its first request, gives a token at the second handshake, and gives resources
-- to a client that has sent four requests.
use coco_guest_components.Common.{
  ℕ, zero, suc, ◌+◌, ◌<◌, ◌≡◌, ◌≢◌, refl, Bool, none, some, [], ◌∷◌, ◌++◌, ltb, if◌then◌else◌, ok,
  err, arith,
}
use coco_guest_components.Text.{Text, bytes, split, ◌=ₜ◌}
use coco_guest_components.External.Tee.{Sha2}
use coco_guest_components.External.Broker.{
  JsonCrate, KeyCrate, HttpResponse, Message, auth_request, attestation, Broker, Counter, rsa_key,
  ec_key,
}
use coco_guest_components.EventLog.Algorithm.{digest}
use coco_guest_components.ResourceUri.{ResourceUri}
use coco_guest_components.Kbs.Keypair.{rsa, export_pubkey, unwrap_cek, decrypt_response}
use coco_guest_components.Kbs.Token
use coco_guest_components.Kbs.Token.{Token, check_exp, check_nbf, check_valid}
use coco_guest_components.Kbs.Client.{
  get_hash_algorithm, tee_type, auth_challenge, attest_from, attest_token, hash_runtime_data,
  store_token, submit, answer, handshake_with, rcar_handshake, repeat_from, repeat_rcar_handshake,
  current_token, get_token, open_response, get_from, get_resource,
}
use coco_guest_components.Kbs.ClientState.{
  unitialized, initializated, World, resource_url, assertion_failed, kbs_internal_error,
}
use coco_guest_components.Kbs.TokenClient
use coco_guest_components.Kbs.TokenClient.{get_resource-no_panic}
use coco_guest_components.Kbs.Handshake.{rcar_handshake_sound}
use coco_guest_components.Kbs.Attested.{Attested}
use coco_guest_components.Kbs.Requests.{Within, requests_bounded}
use coco_guest_components.Kbs.Answers.{
  after_handshakes, Fails, IsFresh, get_token_sound, get_token_retries,
}
use coco_guest_components.Kbs.Resources.{Served, get_resource_sound}

abbrev json : JsonCrate
json = record { Value = Text; get = λ key v. none; as_str = λ v. some v; from_str = λ t. some t }

abbrev keys : KeyCrate json
keys = record {
  RsaKeyPair = Unit {0};
  EcKeyPair = Unit {0};
  rsa_n = λ _. 5 ∷ [];
  rsa_e = λ _. 3 ∷ [];
  rsa_decrypt = λ _ _ wrapped. some wrapped;
  ec_x = λ _. none;
  ec_y = λ _. none;
  ec_unwrap_key = λ _ wrapped _ _. some wrapped;
  url_safe_encode = λ bs. bs;
  url_safe_decode = λ t. some t;
  generate_aad = λ header. some header.alg;
  aes256gcm_decrypt =
      λ cek ciphertext _ aad _. if aad =ₜ bytes "RSA1_5" then some (cek ++ ciphertext) else none;
}

abbrev sha : Sha2
sha = record { sha256 = λ m. m; sha384 = λ m. 1 ∷ m; sha512 = λ m. 2 ∷ m }

abbrev reply : ℕ → ℕ → Message json (Unit {0}) → HttpResponse
reply status s (auth_request _ _ _) = record {
  status = if ltb s 1 then 500 else 200;
  body = some (bytes "nonce");
}
reply status s (attestation _ _) = record { status = status; body = some (bytes "h.c.s") }

abbrev broker : Broker json
broker = record {
  Tee = Unit {0};
  is_se = λ _. Bool.false;
  State = ℕ;
  get_tee_type = λ s. (s, some tt);
  get_evidence = λ s report. (s, some report);
  post = λ s url m. (s + 1, ok (reply 200 s m));
  fetch = λ s url bearer.
      (s + 1, ok (record { status = if ltb s 4 then 401 else 200; body = some (bytes "key") }));
  challenge_from = λ t. some (record { nonce = t; extra_params = [] });
  token_from = λ t. some t;
  response_from = λ t. some (record {
    header = record { alg = bytes "RSA1_5"; epk = none };
    encrypted_key = bytes "a ";
    iv = [];
    ciphertext = t;
    tag = [];
  });
  error_information_from = λ _. some tt;
  claims_from = λ _. some (record { expires_at = none; invalid_before = none });
  runtime_data_to_string = λ tee_pubkey nonce. elim tee_pubkey [
    | rsa_key _ n e ↦ n ++ e ++ nonce
    | ec_key _ _ x y ↦ x ++ y ++ nonce
  ];
}

abbrev counter : Counter broker
counter = record {
  sent = λ s. s;
  sent-post = λ s url m. refl;
  sent-fetch = λ s url bearer. refl;
  sent-get_tee_type = λ s. refl;
  sent-get_evidence = λ s d. refl;
}

abbrev fresh : World keys broker
fresh = record {
  client = record { tee = unitialized; tee_key = rsa tt; kbs_host_url = bytes "h"; token = none };
  net = 0;
}

abbrev token : Token
token = record { content = bytes "h.c.s"; exp = none; nbf = none }

abbrev done : ℕ → World keys broker
done net = record {
  client = record {
    tee = initializated tt;
    tee_key = rsa tt;
    kbs_host_url = bytes "h";
    token = some token;
  };
  net = net;
}

abbrev later : World keys broker
later = record fresh { net = 1 }

first_fails : (rcar_handshake keys sha broker fresh).1 ≡ err kbs_internal_error
unfolding rcar_handshake handshake_with tee_type auth_challenge
first_fails = refl

succeeds : rcar_handshake keys sha broker later ≡ (done 3, ok tt)
unfolding rcar_handshake handshake_with tee_type auth_challenge answer get_hash_algorithm
    export_pubkey hash_runtime_data digest submit attest_from attest_token Token.new split
    store_token
succeeds = refl

rcar_handshake_sound_example : Attested keys sha broker later (done 3)
rcar_handshake_sound_example = rcar_handshake_sound keys sha broker later (done 3) succeeds

fresh-Fails : (i : ℕ) → i < 1 → Fails keys sha broker (after_handshakes keys sha broker i fresh)
fresh-Fails zero h = (kbs_internal_error, first_fails)
fresh-Fails (suc i) h = absurd (omega arith)

second_succeeds :
    (rcar_handshake keys sha broker (after_handshakes keys sha broker 1 fresh)).1 ≡ ok tt
unfolding rcar_handshake handshake_with tee_type auth_challenge answer get_hash_algorithm
    export_pubkey hash_runtime_data digest submit attest_from attest_token Token.new split
    store_token
second_succeeds = refl

get_token_retries_example :
    (t : Token) × ((after_handshakes keys sha broker 2 fresh).client.token ≡ some t)
    × (get_token keys sha broker 7 fresh ≡ (
      after_handshakes keys sha broker 2 fresh,
      ok (t, (after_handshakes keys sha broker 2 fresh).client.tee_key),
    ))
get_token_retries_example =
    get_token_retries keys sha broker 7 1 fresh (λ old e. cc) (omega arith) fresh-Fails
      second_succeeds

gives_token : get_token keys sha broker 7 fresh ≡ (done 3, ok (token, rsa tt))
unfolding get_token repeat_rcar_handshake repeat_from current_token rcar_handshake handshake_with
    tee_type auth_challenge answer get_hash_algorithm export_pubkey hash_runtime_data digest submit
    attest_from attest_token Token.new split store_token
gives_token = refl

get_token_sound_example :
    ((done 3).client.token ≡ some token)
    × ((done 3).client.tee_key ≡ rsa tt)
    × IsFresh keys sha broker 7 fresh (done 3) token
get_token_sound_example =
    get_token_sound keys sha broker 7 fresh (done 3) token (rsa tt) gives_token

abbrev uri : ResourceUri
uri = record {
  kbs_addr = [];
  repository = bytes "r";
  type_name = bytes "t";
  tag = bytes "x";
  query = none;
}

-- An answer of status 401 is met with a handshake, and the next answer has the resource.
gives_resource : get_resource keys sha broker uri later ≡ (done 5, ok (bytes "a key"))
unfolding get_resource get_from resource_url open_response decrypt_response unwrap_cek
    rcar_handshake handshake_with tee_type auth_challenge answer get_hash_algorithm export_pubkey
    hash_runtime_data digest submit attest_from attest_token Token.new split store_token ◌=ₜ◌
gives_resource = refl

get_resource_sound_example :
    Served keys sha broker (resource_url (bytes "h") uri) (done 5) (bytes "a key")
get_resource_sound_example =
    get_resource_sound keys sha broker uri later (done 5) (bytes "a key") gives_resource

requests_bounded_example :
    ((now : ℕ) → Within keys sha broker counter 20 fresh (get_token keys sha broker now fresh).0)
    × ((uri : ResourceUri)
        → Within keys sha broker counter 15 fresh (get_resource keys sha broker uri fresh).0)
requests_bounded_example = requests_bounded keys sha broker counter fresh

-- A provider that has no token.
get_resource-no_panic_example :
    (TokenClient.get_resource keys sha broker (λ s. (s, none)) uri fresh).1 ≢ err assertion_failed
get_resource-no_panic_example = get_resource-no_panic keys sha broker (λ s. (s, none)) uri fresh
