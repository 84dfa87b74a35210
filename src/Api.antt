-- ===== src/Api.antt =====
-- crates/orchestrator-api/src: what stands between the services and the runner.
pub mod Error
pub mod Delegation
pub mod Authz
pub mod Ap2
pub mod Facade
pub mod Acp
pub mod Signing
