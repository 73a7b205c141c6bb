-- ===== src/Signature.antt =====
-- image-rs/src/signature: the policy that decides whether an image may run.
pub mod Image
pub mod RefMatch
pub mod Failure
pub mod Payload
pub mod Policy
pub mod Verify
pub mod Sigstore
pub mod Env
pub mod Simple
pub mod Cosign
pub mod Validator
pub mod Setup
mod Tests
