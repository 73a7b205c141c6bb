-- ===== src/Hub/Packet.antt =====
-- confidential-data-hub/hub/src/image: the packet that an encrypted layer's annotation holds, and the
-- key that is unwrapped from it.
use coco_guest_components.Common.{
  ℕ, not, Option, none, some, List, if◌then◌else◌, Result, ok, err, ok_or,
}
use coco_guest_components.Text.{Text, bytes, ◌=ₜ◌}
use coco_guest_components.External.Aes.{Aes}
use coco_guest_components.External.Kms.{KmsClients}
use coco_guest_components.External.Packets.{Base64, Serde}
use coco_guest_components.External.Url.{UrlCrate}
use coco_guest_components.ResourceUri.{ResourceUri, try_from, whole_uri}
use coco_guest_components.Symmetric.{wrap_type_from, decrypt}
use coco_guest_components.Steps.{◌>>=◌, lift}
use coco_guest_components.Hub.Kms.{
  HubError, kms_failed, base64_failed, decrypt_failed, unknown_wrap_type, bad_annotation_packet,
  illegal_kid, H, ask, new_decryptor, new_getter,
}

-- `DEFAULT_VERSION`, and the name of the provider that is the default
abbrev pub default_version : Text
default_version = bytes "0.1.0"

abbrev pub default_provider : Text
default_provider = bytes "kbs"

-- `v1::AnnotationPacket`
pub record AnnotationPacket : Type 0 where
  pub kid : ResourceUri
  pub wrapped_data : Text
  pub iv : Text
  pub wrap_type : Text

pub record AnnotationPacketV2 (Json : Type 0) : Type 0 where
  pub version : Text
  pub kid : Text
  pub wrapped_data : Text
  pub provider : Text
  pub iv : Option Text
  pub wrap_type : Option Text
  pub provider_settings : Json
  pub annotations : Json

module _ (kms : KmsClients) (aes : Aes) (base64 : Base64) (url : UrlCrate)
    (serde : Serde (AnnotationPacketV2 kms.Json)) where
  open kms use {Json}

  -- `unwrap_key` of v1
  unfoldable pub unwrap_key_v1 : AnnotationPacket → H kms (List ℕ)
  unwrap_key_v1 packet = do
    wrap_type ← lift (ok_or (wrap_type_from packet.wrap_type) unknown_wrap_type)
    kbs_client ← new_getter kms (bytes "Kbs") kms.empty
    kek ← ask kms kms_failed (λ s. kms.get_secret s kbs_client (whole_uri packet.kid) kms.empty)
    wrapped_data ← lift (ok_or (base64.decode packet.wrapped_data) base64_failed)
    iv ← lift (ok_or (base64.decode packet.iv) base64_failed)
    lift (ok_or (decrypt aes kek wrapped_data iv wrap_type) decrypt_failed)

  -- `TryInto<v1::AnnotationPacket>`, after the two checks of the text fields.
  unfoldable pub with_fields :
      AnnotationPacketV2 Json → Option Text → Option Text → Result HubError AnnotationPacket
  with_fields packet none iv = err bad_annotation_packet
  with_fields packet (some wrap_type) none = err bad_annotation_packet
  with_fields packet (some wrap_type) (some iv) = elim (try_from url packet.kid) [
    | err _ ↦ err illegal_kid
    | ok kid ↦
        ok
          (record { kid = kid; wrapped_data = packet.wrapped_data; iv = iv; wrap_type = wrap_type })
  ]

  unfoldable pub try_into : AnnotationPacketV2 Json → Result HubError AnnotationPacket
  try_into packet =
      if not (packet.version =ₜ default_version)
      then err bad_annotation_packet
      else if not (packet.provider =ₜ default_provider)
      then err bad_annotation_packet
      else with_fields packet packet.wrap_type packet.iv

  unfoldable pub unwrap_key_kbs : AnnotationPacketV2 Json → H kms (List ℕ)
  unwrap_key_kbs packet = do anno_v1 ← lift (try_into packet); unwrap_key_v1 anno_v1

  -- The ciphertext is an argument of the call, so it is decoded before.
  unfoldable pub unwrap_key_kms : AnnotationPacketV2 Json → H kms (List ℕ)
  unwrap_key_kms packet = do
    kms_client ← new_decryptor kms packet.provider packet.provider_settings
    wrapped_data ← lift (ok_or (base64.decode packet.wrapped_data) base64_failed)
    ask kms kms_failed (λ s. kms.decrypt s kms_client wrapped_data packet.kid packet.annotations)

  -- `unwrap_key` of v2
  unfoldable pub unwrap_key_v2 : AnnotationPacketV2 Json → H kms (List ℕ)
  unwrap_key_v2 packet s =
      if packet.provider =ₜ bytes "kbs" then unwrap_key_kbs packet s else unwrap_key_kms packet s

  unfoldable pub unwrap_key : List ℕ → H kms (List ℕ)
  unwrap_key annotation_packet = do
    packet ← lift (ok_or (serde.from_slice annotation_packet) bad_annotation_packet)
    unwrap_key_v2 packet
