-- ===== src/Ocicrypt.antt =====
-- ocicrypt-rs: encryption of image layers and the wrapping of their keys.
pub mod Options
pub mod Cipher
pub mod KeyWrap
pub mod Config
pub mod Helpers
pub mod Wrap
pub mod Encryption
pub mod Setup
mod Tests
