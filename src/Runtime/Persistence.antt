-- ===== src/Runtime/Persistence.antt =====
-- The stores of crates/orchestrator-runtime/src/persistence that outlive the process.
pub mod Disk
pub mod Keys
pub mod FileBacked
pub mod Refinement
