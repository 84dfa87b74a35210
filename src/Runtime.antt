-- ===== src/Runtime.antt =====
-- crates/orchestrator-runtime: stores and the orchestration runner.
pub mod Result
pub mod Providers
pub mod Stores
pub mod Monad
pub mod Runner
pub mod Persistence
pub mod Webhooks
pub mod Processor
