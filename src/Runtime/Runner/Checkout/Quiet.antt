-- ===== src/Runtime/Runner/Checkout/Quiet.antt =====
-- The parts of execute_checkout (crates/orchestrator-runtime/src/runner.rs) that make no call of the
-- payment provider.
use commerce_orchestrator_ap.Prelude.{◌≡◌, refl, ◌∙◌, String, Option}
use commerce_orchestrator_ap.Core.Contract.{
  CartProjection, CheckoutRequest, CartLineProjection, TransactionResult, TransactionStatus,
  PaymentState, OrderRecord,
}
use commerce_orchestrator_ap.Runtime.Stores.Idempotency.{IdempotencyKey}
use commerce_orchestrator_ap.Runtime.Stores.Inventory.{Reservations}
use commerce_orchestrator_ap.Runtime.Stores.Effects.{OutboxMessage}
use commerce_orchestrator_ap.Runtime.Stores.Orders.{CommitRecord}
use commerce_orchestrator_ap.Runtime.Monad.{Stores, Runner}
use commerce_orchestrator_ap.Runtime.Monad.Post.{Order, Moves, Moves-pure, Moves-bind}
use commerce_orchestrator_ap.Runtime.Runner.Events.{
  append_cart_event, put_cart_snapshot, set_cart_state,
}
use commerce_orchestrator_ap.Runtime.Runner.Carts.Steps.{CartOrder, Moves-ask, Moves-call}
use commerce_orchestrator_ap.Runtime.Runner.Checkout.{
  release_key, complete_key, claim_key, set_reservations, put_payment_state, put_order, enqueue,
  put_commit, settle_cart_for_checkout, reserve_line, commit_cart, decline, place_order, conclude,
}
use commerce_orchestrator_ap.Runtime.Runner.Checkout.Settle.{settle-Moves}

-- No payment call was made in between.
pub record SamePayments (s t : Stores) : Type 0 where
  pub payments : t.payments ≡ s.payments

abbrev pub same_payments : Order SamePayments
same_payments = record {
  same = λ s. record { payments = refl };
  join = λ s t u h k. record { payments = k.payments ∙ h.payments };
}

pub SamePayments-cart_order : CartOrder SamePayments
unfolding append_cart_event put_cart_snapshot set_cart_state
SamePayments-cart_order = record {
  order = same_payments;
  ticks = λ s n. record { payments = refl };
  events = λ cart_id e. record { at = λ s. record { payments = refl } };
  states = λ cart_id state. record { at = λ s. record { payments = refl } };
  stores = λ c p. record { at = λ s. record { payments = refl } };
}

abbrev o : CartOrder SamePayments
o = SamePayments-cart_order

-- The stores that a checkout writes.
module _ (key : IdempotencyKey) where
  pub release-Same : Moves SamePayments (release_key key)
  unfolding release_key
  release-Same = record { at = λ s. record { payments = refl } }

  pub complete-Same : (r : TransactionResult) → Moves SamePayments (complete_key key r)
  unfolding complete_key
  complete-Same r = record { at = λ s. record { payments = refl } }

  pub claim-Same : Moves SamePayments (claim_key key)
  unfolding claim_key
  claim-Same = record { at = λ s. record { payments = refl } }

pub reservations-Same : (f : Reservations → Reservations) → Moves SamePayments (set_reservations f)
unfolding set_reservations
reservations-Same f = record { at = λ s. record { payments = refl } }

pub state-Same : (id : String) (p : PaymentState) → Moves SamePayments (put_payment_state id p)
unfolding put_payment_state
state-Same id p = record { at = λ s. record { payments = refl } }

pub order-Same : (r : OrderRecord) → Moves SamePayments (put_order r)
unfolding put_order
order-Same r = record { at = λ s. record { payments = refl } }

pub enqueue-Same : (m : OutboxMessage) → Moves SamePayments (enqueue m)
unfolding enqueue
enqueue-Same m = record { at = λ s. record { payments = refl } }

pub commit-Same : (c : CommitRecord) → Moves SamePayments (put_commit c)
unfolding put_commit
commit-Same c = record { at = λ s. record { payments = refl } }

pub put-Same : (c : CartProjection) → Moves SamePayments (put_cart_snapshot c)
unfolding put_cart_snapshot
put-Same c = record { at = λ s. record { payments = refl } }

module _ (runner : Runner) where
  pub settle-Same :
      (request : CheckoutRequest) → Moves SamePayments (settle_cart_for_checkout runner request)
  settle-Same request = settle-Moves o runner request

  pub reserve-Same :
      (request : CheckoutRequest) (line : CartLineProjection)
      → Moves SamePayments (reserve_line runner request line)
  unfolding reserve_line
  reserve-Same request line = Moves-bind o.order (Moves-ask o _) λ now. reservations-Same _

  pub decline-Same :
      (request : CheckoutRequest) (cart : CartProjection) (status : TransactionStatus)
      (reference audit : Option String)
      → Moves SamePayments (decline runner request cart status reference audit)
  unfolding decline
  decline-Same request cart status reference audit =
      Moves-bind o.order (Moves-ask o _) λ transaction.
        Moves-bind o.order (Moves-ask o _) λ correlation.
          Moves-bind o.order (reservations-Same _) λ _.
            Moves-bind o.order (complete-Same _ _)
              λ _. Moves-bind o.order (state-Same _ _) λ _. Moves-pure o.order _

  pub commit_cart-Same :
      (request : CheckoutRequest) (reference : Option String)
      → Moves SamePayments (commit_cart runner request.cart_id reference)
  unfolding commit_cart
  commit_cart-Same request reference =
      Moves-bind o.order (Moves-ask o _)
        λ uuid. Moves-bind o.order (commit-Same _) λ _. Moves-pure o.order _

  pub place_order-Same :
      (request : CheckoutRequest) (cart : CartProjection) (transaction : String)
      → Moves SamePayments (place_order runner request cart transaction)
  unfolding place_order
  place_order-Same request cart transaction = Moves-bind o.order (Moves-ask o _) λ uuid.
      Moves-bind o.order (Moves-ask o _) λ event. Moves-bind o.order (Moves-ask o _) λ occurred.
        Moves-bind o.order (Moves-ask o _)
          λ created. Moves-bind o.order (order-Same _) λ _. Moves-pure o.order _

  pub conclude-Same :
      (request : CheckoutRequest) (cart : CartProjection) (result : TransactionResult) (id : String)
      → Moves SamePayments (conclude runner request cart result id)
  unfolding conclude
  conclude-Same request cart result id = Moves-bind o.order (Moves-call o _ _) λ proof.
      Moves-bind o.order (reservations-Same _) λ _. Moves-bind o.order (Moves-ask o _) λ message.
        Moves-bind o.order (enqueue-Same _) λ _.
          Moves-bind o.order (complete-Same _ _)
            λ _. Moves-bind o.order (state-Same _ _) λ _. Moves-pure o.order _
