-- ===== src/KeyProvider/Laws.antt =====
-- The key that the provider wraps, and its unwrapping by the hub.
use coco_guest_components.Common.{
  ℕ, ◌≡◌, refl, sym, subst, ◌∙◌, Option, some, List, ◌∷◌, ◌++◌, ok, ok_or, ok_or-eq-ok, arith,
}
use coco_guest_components.Text.{Text, bytes, ◌=ₜ◌}
use coco_guest_components.External.Aes.{Aes, AesLaws}
use coco_guest_components.External.Kms.{KmsClients}
use coco_guest_components.External.Packets.{Base64, Base64Laws, Serde}
use coco_guest_components.External.Url.{UrlCrate}
use coco_guest_components.External.Wrapping.{Provider}
use coco_guest_components.ResourceUri.{ResourceUri, try_from, whole_uri}
use coco_guest_components.Symmetric.{WrapType, wrap_type_from, decrypt}
use coco_guest_components.EventLog.Algorithm.{to_lowercase}
use coco_guest_components.Steps.{lift, after_elim}
use coco_guest_components.Hub.Kms.{kms_client_failed, ask, new_getter, vault_provider}
use coco_guest_components.Hub.Packet as Packet
use coco_guest_components.Hub.Packet.{
  AnnotationPacketV2, default_version, default_provider, with_fields, try_into, unwrap_key_v1,
  unwrap_key_kbs, unwrap_key_v2, unwrap_key,
}
use coco_guest_components.KeyProvider.{
  AnnotationPacket, InputParams, parse_input_params, normalize_path, first_param,
  generate_key_parameters, kbs_resource_url_prefix, register_if, packet_of, wrap_with, wrap_for,
  enc_optsdata_gen_anno, encrypt_failed,
}
use coco_guest_components.KeyProvider.Wrap.{
  Algorithm, as_wrap_type, encrypt, wrap_type_from-algorithm_name, decrypt-encrypt,
}

module _ (outside : Provider) (aes : Aes) (base64 : Base64) (serde : Serde AnnotationPacket) where
  open outside use {State, Address, KeyPair}

  -- The options were encrypted under a key that was generated for the request, the key was registered
  -- under its path if it is to be, and the annotation is the packet of these.
  pub record Wrapped (addr : Option Address) (private_key : Option KeyPair) (optsdata : List ℕ)
      (input : InputParams) (s s' : State) (annotation : Text) : Type 0 where
    pub key : List ℕ
    pub iv : List ℕ
    pub kid : Text
    pub between : State
    pub generated :
        generate_key_parameters outside aes base64 serde input s ≡ (between, ok (key, iv, kid))
    pub kbs_addr : Text
    pub k_path : Text
    pub normalized : normalize_path kid ≡ ok (kbs_addr, k_path)
    pub encrypted : List ℕ
    pub encrypts : encrypt aes optsdata key iv input.algorithm ≡ some encrypted
    pub registered :
        register_if outside aes base64 serde addr private_key input.sample key k_path between
        ≡ (s', ok tt)
    pub annotation_is :
        annotation
        ≡ serde.to_string
            (packet_of outside aes base64 serde kbs_addr k_path encrypted iv input.algorithm)

  pub wrap_ok :
      (addr : Option Address) (private_key : Option KeyPair) (optsdata : List ℕ)
      (input : InputParams) (s s' : State) (annotation : Text)
      → wrap_for outside aes base64 serde addr private_key optsdata input s ≡ (s', ok annotation)
      → Wrapped addr private_key optsdata input s s' annotation
  unfolding wrap_for wrap_with
  wrap_ok addr private_key optsdata input s s' annotation h =
      after_elim (generate_key_parameters outside aes base64 serde input s) _ h
        λ s1 (key, iv, kid) e1 h1.
          after_elim (lift (normalize_path kid) s1) _ h1 λ s2 (kbs_addr, k_path) e2 h2.
            after_elim
              (lift (ok_or (encrypt aes optsdata key iv input.algorithm) encrypt_failed) s2) _ h2
              λ s3 encrypted e3 h3.
                after_elim
                  (register_if outside aes base64 serde addr private_key input.sample key k_path s3)
                  _ h3
                  λ s4 _ e4 h4. record {
                    key = key;
                    iv = iv;
                    kid = kid;
                    between = s1;
                    generated = e1;
                    kbs_addr = kbs_addr;
                    k_path = k_path;
                    normalized = cc;
                    encrypted = encrypted;
                    encrypts =
                        ok_or-eq-ok (encrypt aes optsdata key iv input.algorithm) encrypt_failed
                          (cc);
                    registered = cc;
                    annotation_is = cc;
                  }

module _ (kms : KmsClients) (aes : Aes) (base64 : Base64) (url : UrlCrate)
    (serde : Serde (AnnotationPacketV2 kms.Json)) where
  -- The packet as the hub reads it: the fields that it does not have are the defaults.
  abbrev pub read_packet : AnnotationPacket → AnnotationPacketV2 kms.Json
  read_packet p = record {
    version = default_version;
    kid = p.kid;
    wrapped_data = p.wrapped_data;
    provider = default_provider;
    iv = some p.iv;
    wrap_type = some p.wrap_type;
    provider_settings = kms.empty;
    annotations = kms.empty;
  }

  -- The vault has the key under the identifier of the resource.
  pub record Keeps (name : Text) (key : List ℕ) (s s' : kms.State) : Type 0 where
    pub asked : kms.State
    pub client : kms.Getter
    pub connects : kms.kbc_client s ≡ (asked, some client)
    pub gives : kms.get_secret asked client name kms.empty ≡ (s', some key)

  -- The packet of the first version that such a packet is.
  abbrev first_version : AnnotationPacket → ResourceUri → Packet.AnnotationPacket
  first_version p r = record {
    kid = r;
    wrapped_data = p.wrapped_data;
    iv = p.iv;
    wrap_type = p.wrap_type;
  }

  try_into_read :
      (p : AnnotationPacket) (r : ResourceUri)
      → try_from url p.kid ≡ ok r
      → try_into kms aes base64 url serde (read_packet p) ≡ ok (first_version p r)
  unfolding try_into with_fields ◌=ₜ◌
  try_into_read p r named = ground arith

  kbs_getter :
      (s : kms.State)
      → new_getter kms (bytes "Kbs") kms.empty s ≡ ask kms kms_client_failed kms.kbc_client s
  unfolding new_getter vault_provider ◌=ₜ◌ to_lowercase
  kbs_getter s = refl

  unwrap_by_vault :
      (p : Packet.AnnotationPacket) (key iv encrypted optsdata : List ℕ) (t : WrapType)
      (s s' : kms.State)
      → Keeps (whole_uri p.kid) key s s'
      → wrap_type_from p.wrap_type ≡ some t
      → base64.decode p.wrapped_data ≡ some encrypted
      → base64.decode p.iv ≡ some iv
      → decrypt aes key encrypted iv t ≡ some optsdata
      → unwrap_key_v1 kms aes base64 url serde p s ≡ (s', ok optsdata)
  unfolding unwrap_key_v1
  unwrap_by_vault p key iv encrypted optsdata t s s' kept is_type wrapped nonce plain =
      let connects = kept.connects in
      let gives = kept.gives in let getter = kbs_getter s in ground arith

  unwrap_read :
      (p : AnnotationPacket) (r : ResourceUri) (s : kms.State)
      → try_from url p.kid ≡ ok r
      → unwrap_key_v2 kms aes base64 url serde (read_packet p) s
        ≡ unwrap_key_v1 kms aes base64 url serde (first_version p r) s
  unfolding unwrap_key_v2 unwrap_key_kbs ◌=ₜ◌
  unwrap_read p r s named = let same = try_into_read p r named in ground arith

module _ (outside : Provider) (kms : KmsClients) (aes : Aes) (base64 : Base64) (url : UrlCrate)
    (written : Serde AnnotationPacket) (read : Serde (AnnotationPacketV2 kms.Json))
    (laws : AesLaws aes) (encodes : Base64Laws base64)
    (reads : (p : AnnotationPacket)
      → read.from_slice (written.to_string p) ≡ some (read_packet kms aes base64 url read p)) where
  unwrap_wrapped :
      (p : AnnotationPacket) (r : ResourceUri) (t t' : kms.State) (optsdata : List ℕ)
      → unwrap_key_v2 kms aes base64 url read (read_packet kms aes base64 url read p) t
        ≡ (t', ok optsdata)
      → unwrap_key kms aes base64 url read (written.to_string p) t ≡ (t', ok optsdata)
  unfolding unwrap_key
  unwrap_wrapped p r t t' optsdata h = rw (reads p) h

  packet_unwraps :
      (kbs_addr k_path : Text) (key iv encrypted optsdata : List ℕ) (a : Algorithm)
      (r : ResourceUri) (t t' : kms.State)
      → encrypt aes optsdata key iv a ≡ some encrypted
      → try_from url (kbs_resource_url_prefix ++ (kbs_addr ++ b'/' ∷ k_path)) ≡ ok r
      → Keeps kms aes base64 url read (whole_uri r) key t t'
      → unwrap_key kms aes base64 url read
          (written.to_string (packet_of outside aes base64 written kbs_addr k_path encrypted iv a))
          t
        ≡ (t', ok optsdata)
  packet_unwraps kbs_addr k_path key iv encrypted optsdata a r t t' encrypts named kept =
      let p = packet_of outside aes base64 written kbs_addr k_path encrypted iv a in
      unwrap_wrapped p r t t' optsdata (
        unwrap_read kms aes base64 url read p r t named
        ∙ unwrap_by_vault kms aes base64 url read (first_version kms aes base64 url read p r) key iv
            encrypted optsdata (as_wrap_type a) t t' kept (wrap_type_from-algorithm_name a)
            (encodes.decode-encode encrypted) (encodes.decode-encode iv)
            (decrypt-encrypt aes laws optsdata key iv encrypted a encrypts))

  -- A key that the provider wraps is unwrapped by the hub, if the identifier in the annotation is the
  -- URI of a resource and the vault gives for that resource the key that was generated; what is
  -- generated, under which identifier, is named by the further hypotheses. The crates decrypt what they
  -- encrypt, decode what they encode, and read absent fields as the defaults.
  pub unwrap_key-enc_optsdata_gen_anno :
      (addr : Option outside.Address) (private_key : Option outside.KeyPair) (optsdata : List ℕ)
      (params : List Text) (param : Text) (s s1 s' : outside.State) (annotation : Text)
      (key iv : List ℕ) (kid kbs_addr k_path : Text) (r : ResourceUri) (t t' : kms.State)
      → enc_optsdata_gen_anno outside aes base64 written addr private_key optsdata params s
        ≡ (s', ok annotation)
      → first_param params ≡ ok param
      → generate_key_parameters outside aes base64 written (parse_input_params param) s
        ≡ (s1, ok (key, iv, kid))
      → normalize_path kid ≡ ok (kbs_addr, k_path)
      → try_from url (kbs_resource_url_prefix ++ (kbs_addr ++ b'/' ∷ k_path)) ≡ ok r
      → Keeps kms aes base64 url read (whole_uri r) key t t'
      → unwrap_key kms aes base64 url read annotation t ≡ (t', ok optsdata)
  unfolding enc_optsdata_gen_anno
  unwrap_key-enc_optsdata_gen_anno addr private_key optsdata params param s s1 s' annotation key iv
        kid kbs_addr k_path r t t' h first made normal named kept =
      after_elim (lift (first_param params) s) _ h λ s0 param' e0 h0.
        let input = parse_input_params param in
        let w =
          wrap_ok outside aes base64 written addr private_key optsdata input s s' annotation (cc) in
        let same_key : w.key ≡ key = cc in
        let same_path : ◌≡◌ {A = Text × Text} (w.kbs_addr, w.k_path) (kbs_addr, k_path) = cc in
        subst (λ a. unwrap_key kms aes base64 url read a t ≡ (t', ok optsdata))
          (sym w.annotation_is)
          (packet_unwraps w.kbs_addr w.k_path w.key w.iv w.encrypted optsdata input.algorithm r t t'
            w.encrypts
            (subst (λ q. try_from url (kbs_resource_url_prefix ++ (q.0 ++ b'/' ∷ q.1)) ≡ ok r)
              (sym same_path) named)
            (subst (λ k. Keeps kms aes base64 url read (whole_uri r) k t t') (sym same_key) kept))
