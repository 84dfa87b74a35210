-- ===== src/Lib.antt =====
-- The commerce orchestrator: carts, checkouts and what follows them, as the crates
-- crates/orchestrator-core, crates/provider-contracts, crates/orchestrator-runtime,
-- crates/orchestrator-api and crates/integration-adapters have them.
--
-- The core decides without state. Core/Contract has the data of
-- crates/orchestrator-core/src/contract.rs, Core/Contract/Location the destination a cart is judged
-- by, Core/StateMachine/{Cart,Checkout} the two machines of state_machine.rs, Core/Validation the two
-- validators of validation.rs, Core/Policy, Core/Discount and Core/Fulfillment the files of those
-- names. The modules below each of them prove what they do.
--
-- The runtime keeps the state. Runtime/Stores has the in-memory stores of
-- crates/orchestrator-runtime/src: Idempotency (idempotency.rs), Inventory (inventory.rs), Effects
-- (effects.rs), Orders (order.rs, commit.rs, payment_state.rs) and Events (events.rs). Runtime/Monad
-- puts them together in one record and gives the methods of a runner as functions on it: a method
-- that returns an error leaves what it had written. Runtime/Runner follows runner.rs: Events (the
-- event store and transition_cart), Pricing (mutate_and_recalculate, reprice_for_checkout, check_geo,
-- apply_discounts, validate_adjustment), Carts and Fulfillment (dispatch_cart_command, one function
-- for each command), Checkout (settle_cart_for_checkout, execute_checkout), Delivery
-- (process_outbox_once_reporting, replay_from_dead_letter, accept_incoming_event_once,
-- record_mandate) and Payments (capture_payment, void_payment, refund_payment, run_reconciliation).
--
-- Around the runner, Runtime/Webhooks follows webhooks.rs, Runtime/Processor outbox_processor.rs and
-- Runtime/Persistence persistence/file_backed.rs: Disk has the files and what a failed write leaves,
-- Keys the text keys, FileBacked the operations of the stores, and Refinement sets the idempotency
-- store against the one in memory.
--
-- Api is crates/orchestrator-api/src: Authz (authz.rs), Ap2 (ap2_verification.rs), Facade (facade.rs),
-- Acp (acp_mapping.rs) and Signing (signing.rs: Fields parses the headers, Messages accepts a signed
-- message, Times and Keys are about the creation time and the ids of a ring). The facade puts its own checks before a method of the runner, and a method
-- of it is again a function on the record of the stores. Api/Delegation has the contracts of
-- crates/provider-contracts/src/delegation.rs.
--
-- Adapters is crates/integration-adapters/src: Circuit (circuit.rs) is the breaker of one provider and
-- Client (client.rs) the loop that sends, waits and repeats, with the breaker asked before each send
-- and told after it.
--
-- Providers, identifiers and clocks (Runtime/Providers) are parameters. Each of their answers is a
-- function of the moment, the number of outside calls made before, so a service may answer the same
-- question differently every time. Theorems hold for all of them.
--
-- An i64 is an integer and its arithmetic wraps as in a release build (Prelude/Int); u32 and u64
-- counters are natural numbers with the wrap written out. A hash map is an association list
-- (Prelude/Dict). Loops run over lists or count down; only the drain of the outbox processor, which
-- ends with the clock, runs on fuel, and more fuel than there are messages is enough where deliveries
-- succeed.
--
-- Not modelled: the PostgreSQL stores, whose statements have the database's meaning; the errors of a
-- store inside the runner, since its stores are those in memory; tasks that run at the same time (a
-- method runs as a whole); metrics and logs; the endless loop of the outbox processor; the HTTP
-- adapters of the single providers; the UCP and A2A mappings, the redaction, the signing side and
-- the reading of JWKs in crates/orchestrator-api; and crates/orchestrator-http and crates/orchestrator-mcp, which translate
-- requests to the operations modelled here. Cryptography, JSON and SQL are third-party code.
--
-- Examples runs the theorems on one small shop.
pub mod Prelude
pub mod Core
pub mod Runtime
pub mod Adapters
pub mod Api
pub mod Examples
