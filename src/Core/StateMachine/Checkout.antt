-- ===== src/Core/StateMachine/Checkout.antt =====
-- The checkout machine of crates/orchestrator-core/src/state_machine.rs.
pub mod Traces
use commerce_orchestrator_ap.Prelude.{Option, none, some, List, [], ◌∷◌}
use commerce_orchestrator_ap.Core.Contract.{TransactionStatus}

pub data CheckoutState : Type 0 where
  received validated priced taxed geo_checked payment_authorized committed : CheckoutState
  receipt_generated completed rejected auth_failed commit_failed timed_out : CheckoutState

pub data CheckoutEvent : Type 0 where
  validate_passed price_resolved tax_resolved geo_validated payment_authorized : CheckoutEvent
  committed receipt_generated complete reject payment_failed commit_failed timeout : CheckoutEvent

unfoldable pub next_checkout_state : CheckoutState → CheckoutEvent → Option CheckoutState
next_checkout_state received validate_passed = some validated
next_checkout_state validated price_resolved = some priced
next_checkout_state priced tax_resolved = some taxed
next_checkout_state taxed geo_validated = some geo_checked
next_checkout_state geo_checked CheckoutEvent.payment_authorized =
    some CheckoutState.payment_authorized
next_checkout_state CheckoutState.payment_authorized CheckoutEvent.committed =
    some CheckoutState.committed
next_checkout_state CheckoutState.committed CheckoutEvent.receipt_generated =
    some CheckoutState.receipt_generated
next_checkout_state CheckoutState.receipt_generated complete = some completed
next_checkout_state received reject = some rejected
next_checkout_state validated reject = some rejected
next_checkout_state priced reject = some rejected
next_checkout_state geo_checked payment_failed = some auth_failed
next_checkout_state CheckoutState.payment_authorized CheckoutEvent.commit_failed =
    some CheckoutState.commit_failed
next_checkout_state _ timeout = some timed_out
next_checkout_state _ _ = none

unfoldable pub terminal_status : CheckoutState → Option TransactionStatus
terminal_status completed = some TransactionStatus.completed
terminal_status rejected = some TransactionStatus.rejected
terminal_status auth_failed = some TransactionStatus.auth_failed
terminal_status CheckoutState.commit_failed = some TransactionStatus.commit_failed
terminal_status timed_out = some TransactionStatus.timed_out
terminal_status _ = none

-- A sequence of events from a state, as for the cart.
unfoldable pub run_checkout : CheckoutState → List CheckoutEvent → Option CheckoutState
run_checkout s [] = some s
run_checkout s (e ∷ es) = elim (next_checkout_state s e) [
  | none ↦ none
  | some t ↦ run_checkout t es
]
