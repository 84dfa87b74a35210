-- ===== src/Runtime/Runner.antt =====
-- crates/orchestrator-runtime/src/runner.rs: `Runner` and its methods.
pub mod Events
pub mod Pricing
pub mod Carts
pub mod Fulfillment
pub mod Checkout
pub mod Delivery
pub mod Payments
