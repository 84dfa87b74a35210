-- ===== src/Core.antt =====
-- crates/orchestrator-core: contracts, validation, policy, discounts and the state machines.
pub mod Contract
pub mod Fulfillment
pub mod Discount
pub mod StateMachine
pub mod Validation
pub mod Policy
