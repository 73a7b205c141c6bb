-- ===== src/External/OpenPgp.antt =====
-- The crate `sequoia_openpgp`: packets of a keyring and of a signed message.
use coco_guest_components.Common.{Bool, Option, List, ℕ}

pub record OpenPgp : Type 1 where
  pub PacketPile : Type 0
  pub Packet : Type 0
  pub PublicKey : Type 0
  pub Signature : Type 0
  -- `PacketPile::from_bytes`
  pub from_bytes : List ℕ → Option PacketPile
  pub descendants : PacketPile → List Packet
  -- the cases `Packet::PublicKey`, and of the packets at the paths [0, 0], [0, 1] and [0, 2] the
  -- cases `OnePassSig` with its issuer, `Literal` with its body, and `Signature`
  pub public_key : Packet → Option PublicKey
  pub one_pass_issuer : PacketPile → Option (List ℕ)
  pub literal_body : PacketPile → Option (List ℕ)
  pub signature : PacketPile → Option Signature
  pub verify_signature : Signature → PublicKey → Bool
  pub fingerprint : PublicKey → List ℕ
