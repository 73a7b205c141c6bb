-- ===== src/KeyProvider/Service.antt =====
-- attestation-agent/coco_keyprovider/src/grpc/mod.rs: the service that wraps a key on request.
use coco_guest_components.Common.{
  ℕ, Option, none, some, List, [], ◌∷◌, Result, ok, err, ok_or, map_err,
}
use coco_guest_components.Text.{Text, bytes}
use coco_guest_components.Text.Map.{lookup}
use coco_guest_components.Text.Utf8.{from_utf8}
use coco_guest_components.External.Aes.{Aes}
use coco_guest_components.External.Packets.{Base64, Serde, KeyProviderInput}
use coco_guest_components.External.Wrapping.{Provider}
use coco_guest_components.Steps.{Steps, ◌>>=◌, lift}
use coco_guest_components.KeyProvider.{ProviderError, AnnotationPacket, enc_optsdata_gen_anno}

pub data Status : Type 0 where
  invalid_argument aborted unimplemented : Status
  internal : ProviderError → Status

-- `KeyProvider`, in which a broker's address that cannot be parsed is absent
pub record KeyProvider (outside : Provider) : Type 0 where
  pub auth_private_key : Option outside.KeyPair
  pub kbs : Option outside.Address

module _ (outside : Provider) (aes : Aes) (base64 : Base64) (serde : Serde AnnotationPacket)
    (input : Serde KeyProviderInput) (output : Serde (List ℕ)) where
  open outside use {State}

  abbrev pub G : Type 0 → Type 0
  G A = Steps State Status A

  -- The parameters that are base64 of UTF-8 text; the others are dropped.
  unfoldable pub decoded_params : List Text → List Text
  decoded_params [] = []
  decoded_params (p ∷ ps) =
      let rest = decoded_params ps in
      elim (base64.decode p) [
        | none ↦ rest
        | some st ↦ elim (from_utf8 st) [ none ↦ rest | some text ↦ text ∷ rest ]
      ]

  unfoldable pub params_of : KeyProviderInput → Result Status (List Text)
  params_of i = elim i.ec [
    | none ↦ err invalid_argument
    | some parameters ↦ elim (lookup (bytes "attestation-agent") parameters) [
      | none ↦ err invalid_argument
      | some ps ↦ ok (decoded_params ps)
    ]
  ]

  abbrev pub wrapped : KeyProvider outside → List ℕ → List Text → G Text
  wrapped provider optsdata params s =
      let (s', r) =
        enc_optsdata_gen_anno outside aes base64 serde provider.kbs provider.auth_private_key
          optsdata params s in
      (s', map_err internal r)

  -- The answer is the annotation as JSON.
  unfoldable pub wrap_key : KeyProvider outside → List ℕ → G Text
  wrap_key provider request = do
    input_string ← lift (ok_or (from_utf8 request) invalid_argument)
    i ← lift (ok_or (input.from_slice input_string) invalid_argument)
    optsdata ← lift (ok_or i.optsdata invalid_argument)
    params ← lift (params_of i)
    decoded ← lift (ok_or (base64.decode optsdata) aborted)
    annotation ← wrapped provider decoded params
    lift (ok (output.to_string annotation))

  unfoldable pub un_wrap_key : List ℕ → G Text
  un_wrap_key request = lift (err unimplemented)
