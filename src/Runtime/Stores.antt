-- ===== src/Runtime/Stores.antt =====
-- The in-memory stores of crates/orchestrator-runtime/src.
pub mod Events
pub mod Idempotency
pub mod Inventory
pub mod Effects
pub mod Orders
