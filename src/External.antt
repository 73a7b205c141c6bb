-- ===== src/External.antt =====
-- What the program takes from crates outside the repository: each is a record of operations, with
-- the documented behaviour that theorems rely on in a record of laws of its own.
pub mod Oci
pub mod Sigstore
pub mod Hex
pub mod OpenPgp
pub mod Crypto
pub mod Encoding
pub mod Concrete
pub mod Tee
pub mod Url
pub mod Broker
pub mod Host
pub mod Files
pub mod Aes
pub mod Kms
pub mod Packets
pub mod Wrapping
