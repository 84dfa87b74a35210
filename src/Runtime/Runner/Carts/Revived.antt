-- ===== src/Runtime/Runner/Carts/Revived.antt =====
-- StartCheckout on a cancelled cart (dispatch_cart_command of
-- crates/orchestrator-runtime/src/runner.rs).
use commerce_orchestrator_ap.Prelude.{◌≡◌, refl, true, ◌==◌, some, none, subst}
use commerce_orchestrator_ap.Prelude.Eq.{nat_eq}
use commerce_orchestrator_ap.Prelude.Dict.{lookup, insert, lookup-insert_self}
use commerce_orchestrator_ap.Core.Contract.{
  start_checkout, StartCheckoutPayload, CartProjection, CartStatus,
}
use commerce_orchestrator_ap.Core.StateMachine.Cart.{
  CartState, mark_checkout_ready, next_cart_state,
}
use commerce_orchestrator_ap.Core.Validation.{validate_cart_command}
use commerce_orchestrator_ap.Runtime.Result.{err}
use commerce_orchestrator_ap.Runtime.Stores.Events.{checkout_ready}
use commerce_orchestrator_ap.Runtime.Monad.{
  Stores, Runner, ◌>>=◌, raise_if, invalid_state_transition,
}
use commerce_orchestrator_ap.Runtime.Runner.Events.{
  append_cart_event, put_cart_snapshot, require_cart-found, next_version,
}
use commerce_orchestrator_ap.Runtime.Runner.Carts.{start_found, start, dispatch_cart_command}
use commerce_orchestrator_ap.Runtime.Runner.Carts.Stuck.{transition-refused}

-- The cart as it is written.
abbrev pub made_ready : CartProjection → CartProjection
made_ready c = record c { status = CartStatus.checkout_ready; version = next_version c.version }

module _ (runner : Runner) (payload : StartCheckoutPayload) (c : CartProjection) (s : Stores)
    (cancelled : lookup payload.cart_id s.cart_states ≡ some CartState.cancelled)
    (version : (c.version == payload.cart_version) ≡ true) (own : c.cart_id ≡ payload.cart_id) where
  -- The stores with the event and the snapshot written.
  abbrev written : Stores
  written =
      (put_cart_snapshot (made_ready c) (append_cart_event payload.cart_id checkout_ready s).1).1

  start_found-cancelled :
      let (r, t) = start_found runner payload c s in
      (r ≡ err invalid_state_transition)
      × (lookup payload.cart_id t.cart_snapshots ≡ some (made_ready c))
  unfolding start_found ◌>>=◌ raise_if append_cart_event put_cart_snapshot next_cart_state
  start_found-cancelled = rw (version) (
      rw
        (transition-refused payload.cart_id mark_checkout_ready written CartState.cancelled
          cancelled refl)
        (
          refl,
          subst
              (λ id.
                lookup id (insert c.cart_id (made_ready c) s.cart_snapshots) ≡ some (made_ready c))
              own (lookup-insert_self c.cart_id (made_ready c) s.cart_snapshots),
        ))

  -- A valid StartCheckout of a cancelled cart, with the cart's own version, fails as an invalid
  -- transition, and yet the stored cart then reads as ready for checkout.
  pub start-revives_cancelled :
      (validate_cart_command (start_checkout payload)).valid ≡ true
      → lookup payload.cart_id s.cart_snapshots ≡ some c
      → let (r, t) = dispatch_cart_command runner (start_checkout payload) none s in
        (r ≡ err invalid_state_transition)
        × (lookup payload.cart_id t.cart_snapshots ≡ some (made_ready c))
  unfolding dispatch_cart_command start
  start-revives_cancelled valid found =
      rw (valid) (rw (require_cart-found payload.cart_id _ s c found) start_found-cancelled)
