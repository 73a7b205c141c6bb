-- ===== src/Kbs.antt =====
-- attestation-agent/kbs_protocol/src: the client of the key broker service.
pub mod Keypair
pub mod Token
pub mod ClientState
pub mod Client
pub mod Attested
pub mod Handshake
pub mod Requests
pub mod Answers
pub mod Opened
pub mod Resources
pub mod TokenClient
mod Tests
