-- ===== src/KeyProvider/Tests.antt =====
-- A key from a file is wrapped, registered and unwrapped.
use coco_guest_components.Common.{
  ℕ, ◌+◌, ◌≡◌, refl, ap, true, Option, some, none, List, [], ◌∷◌, ok,
}
use coco_guest_components.Text.{Text, bytes, split, split_once, strip_prefix, ◌=ₜ◌}
use coco_guest_components.Text.Map.{lookup, insert}
use coco_guest_components.External.Packets.{Serde}
use coco_guest_components.External.Url.{UrlCrate}
use coco_guest_components.External.Wrapping.{Provider}
use coco_guest_components.Ocicrypt.Setup.{fields}
use coco_guest_components.ResourceUri.{
  ResourceUri, try_from, try_from_url, address, of_parts, whole_uri,
}
use coco_guest_components.Hub.Packet.{
  AnnotationPacketV2, default_version, default_provider, unwrap_key,
}
use coco_guest_components.Hub.Setup.{put, fields-put, base64, base64_laws, aes, aes_laws, kms}
use coco_guest_components.KeyProvider.{
  AnnotationPacket, split_fields, collect_fields, is_true, algorithm_param, parse_input_params,
  of_four, normalize_path, first_param, kid_or_new, key_from_file, key_of_path,
  generate_key_parameters, register_kek, register_if, wrap_with, wrap_for, enc_optsdata_gen_anno,
}
use coco_guest_components.KeyProvider.Wrap.{algorithm_or_default, algorithm_name, encrypt}
use coco_guest_components.KeyProvider.Laws.{read_packet, Keeps, unwrap_key-enc_optsdata_gen_anno}

abbrev outside : Provider
outside = record {
  State = ℕ;
  read_file = λ s p. (s + 1, some (7 ∷ []));
  random_bytes = λ s n. (s + 1, some (9 ∷ []));
  uuid = λ s. (s, bytes "u");
  Address = Unit {0};
  KeyPair = Unit {0};
  sign = λ s k. (s, some (bytes "jwt"));
  post = λ s a path token body. (s + 1, true);
}

abbrev written : Serde AnnotationPacket
written = record {
  to_string = λ p. put (p.kid ∷ p.wrapped_data ∷ p.iv ∷ p.wrap_type ∷ []);
  from_slice = λ bs. none;
}

abbrev packet_fields : List (List ℕ) → Option (AnnotationPacketV2 (Unit {0}))
packet_fields (kid ∷ wrapped ∷ iv ∷ wrap_type ∷ []) = some (record {
  version = default_version;
  kid = kid;
  wrapped_data = wrapped;
  provider = default_provider;
  iv = some iv;
  wrap_type = some wrap_type;
  provider_settings = tt;
  annotations = tt;
})
packet_fields _ = none

abbrev reader : Serde (AnnotationPacketV2 (Unit {0}))
reader = record { to_string = λ p. []; from_slice = λ bs. packet_fields (fields bs) }

-- The one URL that is reader is that of the key.
abbrev kid_text : Text
kid_text = bytes "kbs:///r/key/1"

abbrev url : UrlCrate
url = record {
  Url = Text;
  parse = λ t. some t;
  scheme = λ u. bytes "kbs";
  host_str = λ u. none;
  port = λ u. none;
  path = λ u. bytes "/r/key/1";
  query = λ u. none;
}

abbrev resource : ResourceUri
resource = record {
  kbs_addr = [];
  repository = bytes "r";
  type_name = bytes "key";
  tag = bytes "1";
  query = none;
}

abbrev param : Text
param = bytes "keypath=k::keyid=kbs:///r/key/1"

abbrev annotation : Text
annotation = written.to_string (record {
  kid = kid_text;
  wrapped_data = base64.encode (1 ∷ 2 ∷ []);
  iv = base64.encode (9 ∷ []);
  wrap_type = bytes "A256GCM";
})

is_read :
    (p : AnnotationPacket)
    → reader.from_slice (written.to_string p)
      ≡ some (read_packet (kms (7 ∷ [])) aes base64 url reader p)
is_read p = ap packet_fields (fields-put (p.kid ∷ p.wrapped_data ∷ p.iv ∷ p.wrap_type ∷ []))

wraps :
    enc_optsdata_gen_anno outside aes base64 written (some tt) (some tt) (1 ∷ 2 ∷ []) (param ∷ []) 0
    ≡ (3, ok annotation)
unfolding enc_optsdata_gen_anno first_param wrap_for wrap_with parse_input_params
    generate_key_parameters key_of_path key_from_file kid_or_new split_fields collect_fields is_true
    algorithm_param algorithm_or_default normalize_path of_four split split_once strip_prefix
    encrypt register_if register_kek algorithm_name lookup insert ◌=ₜ◌
wraps = refl

generates :
    generate_key_parameters outside aes base64 written (parse_input_params param) 0
    ≡ (2, ok (7 ∷ [], 9 ∷ [], kid_text))
unfolding parse_input_params generate_key_parameters key_of_path key_from_file kid_or_new
    split_fields collect_fields is_true algorithm_param split_once lookup insert ◌=ₜ◌
generates = refl

first : first_param (param ∷ []) ≡ ok param
unfolding first_param
first = refl

normal : normalize_path kid_text ≡ ok ([], bytes "r/key/1")
unfolding normalize_path of_four split strip_prefix
normal = refl

named : try_from url kid_text ≡ ok resource
unfolding try_from try_from_url address of_parts split ◌=ₜ◌
named = refl

kept : Keeps (kms (7 ∷ [])) aes base64 url reader (whole_uri resource) (7 ∷ []) 0 2
kept = record { asked = 1; client = tt; connects = refl; gives = refl }

unwrap_key-enc_optsdata_gen_anno_example :
    unwrap_key (kms (7 ∷ [])) aes base64 url reader annotation 0 ≡ (2, ok (1 ∷ 2 ∷ []))
unwrap_key-enc_optsdata_gen_anno_example =
    unwrap_key-enc_optsdata_gen_anno outside (kms (7 ∷ [])) aes base64 url written reader aes_laws
      base64_laws is_read (some tt) (some tt) (1 ∷ 2 ∷ []) (param ∷ []) param 0 2 3 annotation
      (7 ∷ []) (9 ∷ []) kid_text [] (bytes "r/key/1") resource 0 2 wraps first generates normal
      named kept
