-- ===== src/Hub.antt =====
-- confidential-data-hub: the secrets and keys that the guest asks for.
pub mod Kms
pub mod Secret
pub mod Packet
pub mod Credentials
pub mod Setup
mod Tests
