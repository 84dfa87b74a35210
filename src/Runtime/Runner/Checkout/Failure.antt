-- ===== src/Runtime/Runner/Checkout/Failure.antt =====
-- What a checkout that fails leaves under its idempotency key (execute_checkout of
-- crates/orchestrator-runtime/src/runner.rs).
use commerce_orchestrator_ap.Prelude.{◌≡◌, refl, ap, ◌∙◌, true, none, some}
use commerce_orchestrator_ap.Prelude.Dict.{lookup, insert, lookup-insert_self, lookup-remove_self}
use commerce_orchestrator_ap.Core.Contract.{CheckoutRequest}
use commerce_orchestrator_ap.Core.Validation.{validate_checkout_request}
use commerce_orchestrator_ap.Runtime.Result.{err}
use commerce_orchestrator_ap.Runtime.Stores.Idempotency
use commerce_orchestrator_ap.Runtime.Stores.Idempotency.{
  IdempotencyKey, key_eq, IdempotencyState, IdempotencyMap, in_flight,
}
use commerce_orchestrator_ap.Runtime.Monad.{Stores, Runner, RunnerError, ◌>>=◌, on_error, otherwise}
use commerce_orchestrator_ap.Runtime.Runner.Carts.Frame.{SameBusiness-cart_order}
use commerce_orchestrator_ap.Runtime.Runner.Checkout.{
  release_key, settle_cart_for_checkout, checkout_claimed, execute_checkout, key_of,
}
use commerce_orchestrator_ap.Runtime.Runner.Checkout.Settle.{settle-Moves}
use commerce_orchestrator_ap.Runtime.Runner.Checkout.Replay.{execute-new}

-- The stores after a claim of a free key.
abbrev pub taken : CheckoutRequest → Stores → Stores
taken request s = record s { idempotency = insert (key_of request) in_flight s.idempotency }

release_in_flight :
    (key : IdempotencyKey) (map : IdempotencyMap)
    → lookup key map ≡ some in_flight
    → lookup key (Idempotency.release key map) ≡ none
unfolding Idempotency.release
release_in_flight key map e = rw e (lookup-remove_self key map)

module _ (runner : Runner) (request : CheckoutRequest) where
  -- A failed settlement, as the rest of the checkout sees it.
  claimed-fails :
      (s : Stores) (e : RunnerError)
      → (settle_cart_for_checkout runner request s).0 ≡ err e
      → checkout_claimed runner request s
        ≡ (err e, (release_key (key_of request) (settle_cart_for_checkout runner request s).1).1)
  unfolding checkout_claimed on_error ◌>>=◌
  claimed-fails s e h = rw (h, otherwise)

  -- A valid request with a free key whose cart cannot be settled is refused with the settlement's
  -- error, has called no payment operation and has written no order, and its key is free again.
  pub failed_settlement_frees_key :
      (s : Stores) (e : RunnerError)
      → (validate_checkout_request request).valid ≡ true
      → lookup (key_of request) s.idempotency ≡ none
      → (settle_cart_for_checkout runner request (taken request s)).0 ≡ err e
      → let (r, t) = execute_checkout runner request s in
        (r ≡ err e)
        × (lookup (key_of request) t.idempotency ≡ none)
        × (t.payments ≡ s.payments)
        × (t.orders ≡ s.orders)
  unfolding release_key
  failed_settlement_frees_key s e valid free fails =
      let same = (settle-Moves SameBusiness-cart_order runner request).at (taken request s) in
      let held = lookup-insert_self (key_of request) in_flight s.idempotency in
      rw (execute-new runner request s valid free) (
        rw (claimed-fails (taken request s) e fails) (
          refl,
          release_in_flight (key_of request) _
              (ap (λ m. lookup (key_of request) m) same.idempotency ∙ held),
          same.payments,
          same.orders,
        ))
