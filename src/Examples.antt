-- ===== src/Examples.antt =====
-- Concrete runs of the theorems: a shop with one cart, and one file for each part.
pub mod Samples
pub mod Rules
pub mod Destinations
pub mod Carts
pub mod Checkouts
pub mod Queues
pub mod Adapters
pub mod Deliveries
pub mod Protocols
pub mod Signatures
