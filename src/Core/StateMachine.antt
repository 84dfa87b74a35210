-- ===== src/Core/StateMachine.antt =====
-- crates/orchestrator-core/src/state_machine.rs: the cart machine and the checkout machine.
pub mod Cart
pub mod Checkout
