-- ===== src/EventLog.antt =====
-- attestation-agent/attestation-agent/src/eventlog: the log of runtime events and its replay.
pub mod Lines
pub mod Algorithm
pub mod Entry
pub mod Replay
pub mod Log
mod Tests
