-- ===== src/Api/Signing.antt =====
-- crates/orchestrator-api/src/signing.rs: how the signature of a message is read from its headers
-- and accepted.
pub mod KeyError
pub mod Fields
pub mod Messages
pub mod Times
pub mod Keys
pub mod Checks
pub mod Authentic
