-- ===== src/Adapters.antt =====
-- crates/integration-adapters/src: what stands between the runner and a provider over HTTP.
pub mod Error
pub mod Circuit
pub mod Client
