-- ===== src/Core/StateMachine/Checkout/Traces.antt =====
-- What sequences of checkout events can do (next_checkout_state, terminal_status).
use commerce_orchestrator_ap.Prelude.{
  ◌≡◌, ◌≢◌, ◌↔◌, ◌⊎◌, inl, inr, Option, none, some, List, [], ◌∷◌, arith, Option-cases,
}
use commerce_orchestrator_ap.Core.Contract.{TransactionStatus}
use commerce_orchestrator_ap.Core.StateMachine.Checkout.{
  CheckoutState, received, validated, priced, taxed, geo_checked, completed, CheckoutEvent,
  validate_passed, price_resolved, tax_resolved, geo_validated, complete, timeout,
  next_checkout_state, terminal_status, run_checkout,
}

-- The eight events of a checkout that goes well, in order.
abbrev pub happy_path : List CheckoutEvent
happy_path =
    validate_passed ∷ price_resolved ∷ tax_resolved ∷ geo_validated
    ∷ CheckoutEvent.payment_authorized ∷ CheckoutEvent.committed ∷ CheckoutEvent.receipt_generated
    ∷ complete ∷ []

-- What is left of the happy path in each state; the other states are past it.
abbrev remaining : CheckoutState → Option (List CheckoutEvent)
remaining received = some happy_path
remaining validated = some (
    price_resolved ∷ tax_resolved ∷ geo_validated ∷ CheckoutEvent.payment_authorized
    ∷ CheckoutEvent.committed ∷ CheckoutEvent.receipt_generated ∷ complete ∷ [])
remaining priced = some (
    tax_resolved ∷ geo_validated ∷ CheckoutEvent.payment_authorized ∷ CheckoutEvent.committed
    ∷ CheckoutEvent.receipt_generated ∷ complete ∷ [])
remaining taxed = some (
    geo_validated ∷ CheckoutEvent.payment_authorized ∷ CheckoutEvent.committed
    ∷ CheckoutEvent.receipt_generated ∷ complete ∷ [])
remaining geo_checked = some (
    CheckoutEvent.payment_authorized ∷ CheckoutEvent.committed ∷ CheckoutEvent.receipt_generated
    ∷ complete ∷ [])
remaining CheckoutState.payment_authorized =
    some (CheckoutEvent.committed ∷ CheckoutEvent.receipt_generated ∷ complete ∷ [])
remaining CheckoutState.committed = some (CheckoutEvent.receipt_generated ∷ complete ∷ [])
remaining CheckoutState.receipt_generated = some (complete ∷ [])
remaining completed = some []
remaining _ = none

-- A step to a state with a remaining path took the first event of the path that was left before.
remaining_step :
    (s : CheckoutState) (e : CheckoutEvent) {t : CheckoutState} {es : List CheckoutEvent}
    → next_checkout_state s e ≡ some t
    → remaining t ≡ some es
    → remaining s ≡ some (e ∷ es)
unfolding next_checkout_state
remaining_step s e h r = ground arith

-- A run that ends in `completed` took exactly the events that were left.
completed_runs :
    (s : CheckoutState) (es : List CheckoutEvent)
    → run_checkout s es ≡ some completed
    → remaining s ≡ some es
unfolding run_checkout
completed_runs s [] h = cc
completed_runs s (e ∷ es) h = elim (Option-cases (next_checkout_state s e)) [
  | inl none_next ↦ cc
  | inr (t, next) ↦ remaining_step s e next (completed_runs t es (rw (next, run_checkout) at h))
]

-- From `received` the only sequence of events that ends in `completed` is the happy path, and it
-- does end there.
pub completed_iff_happy_path :
    (es : List CheckoutEvent) → (run_checkout received es ≡ some completed) ↔ (es ≡ happy_path)
unfolding run_checkout next_checkout_state
completed_iff_happy_path es = (λ h. cc (completed_runs received es h), λ h. rw h)

-- A state with a terminal status accepts no event but the timeout, and every state accepts that
-- one: a completed checkout too then reads as timed out.
pub terminal_then_timeout :
    (s : CheckoutState) (e : CheckoutEvent) {st : TransactionStatus}
    → terminal_status s ≡ some st
    → ((e ≡ timeout) × (next_checkout_state s e ≡ some CheckoutState.timed_out))
      ⊎ ((e ≢ timeout) × (next_checkout_state s e ≡ none))
unfolding terminal_status next_checkout_state
terminal_then_timeout s e h = ground arith
