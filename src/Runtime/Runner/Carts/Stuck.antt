-- ===== src/Runtime/Runner/Carts/Stuck.antt =====
-- A recalculation (mutate_and_recalculate of crates/orchestrator-runtime/src/runner.rs) that stops
-- half way leaves the cart's state machine half way.
use commerce_orchestrator_ap.Prelude.{◌+◌, ◌≡◌, refl, none, some, List, arith}
use commerce_orchestrator_ap.Prelude.Dict.{lookup, insert, lookup-insert_self}
use commerce_orchestrator_ap.Prelude.Eq.{nat_eq}
use commerce_orchestrator_ap.Core.Contract.{CartId, CartProjection}
use commerce_orchestrator_ap.Core.StateMachine.Cart.{
  CartState, CartEvent, next_cart_state, item_changed, items_mutated, repriced,
}
use commerce_orchestrator_ap.Runtime.Result.{ok, err}
use commerce_orchestrator_ap.Runtime.Providers.{LinePrice, TaxError}
use commerce_orchestrator_ap.Runtime.Stores.Events.{CartStreamEvent}
use commerce_orchestrator_ap.Runtime.Monad.{
  Stores, Runner, ◌>>=◌, call, invalid_state_transition, or_raise, continue,
}
use commerce_orchestrator_ap.Runtime.Runner.Events.{
  append_cart_event, transition_cart, get_cart_state, set_cart_state,
}
use commerce_orchestrator_ap.Runtime.Runner.Pricing.{mutate_and_recalculate, with_prices}

module _ (id : CartId) (event : CartEvent) (s : Stores) (current : CartState)
    (at : lookup id s.cart_states ≡ some current) where
  pub transition-accepted :
      (next : CartState)
      → next_cart_state current event ≡ some next
      → transition_cart id event s
        ≡ (ok tt, record s { cart_states = insert id next s.cart_states })
  unfolding transition_cart get_cart_state set_cart_state or_raise ◌>>=◌
  transition-accepted next e = rw (at, or_raise) (rw (e, or_raise))

  pub transition-refused :
      next_cart_state current event ≡ none
      → transition_cart id event s ≡ (err invalid_state_transition, s)
  unfolding transition_cart get_cart_state set_cart_state or_raise ◌>>=◌
  transition-refused e = rw (at, or_raise) (rw (e, or_raise))

module _ (runner : Runner) (id : CartId) where
  -- In a state that refuses a change no recalculation begins.
  recalculation-refused :
      (c : CartProjection) (e : CartStreamEvent) (s : Stores) (current : CartState)
      → lookup id s.cart_states ≡ some current
      → next_cart_state current item_changed ≡ none
      → mutate_and_recalculate runner id c e s ≡ (err invalid_state_transition, s)
  unfolding mutate_and_recalculate ◌>>=◌
  recalculation-refused c e s current at n =
      rw (transition-refused id item_changed s current at n, continue)

  left_repriced :
      (c : CartProjection) (e : CartStreamEvent) (s : Stores) (current : CartState)
      (priced : List LinePrice) (x : TaxError)
      → lookup id s.cart_states ≡ some current
      → next_cart_state current item_changed ≡ some items_mutated
      → runner.providers.resolve_prices s.moment c ≡ ok priced
      → runner.providers.resolve_tax (s.moment + 1) (with_prices c priced) ≡ err x
      → lookup id (mutate_and_recalculate runner id c e s).1.cart_states ≡ some repriced
  unfolding mutate_and_recalculate ◌>>=◌ append_cart_event call next_cart_state transition_cart
      get_cart_state set_cart_state or_raise
  left_repriced c e s current priced x at n prices taxes = ground (
    arith,
    lookup-insert_self id items_mutated s.cart_states,
    lookup-insert_self id repriced (insert id items_mutated s.cart_states),
  )

  -- A recalculation that a cart's state accepts, and whose prices resolve but whose tax does not,
  -- leaves stores from which a further recalculation of that cart, whatever cart and event it brings,
  -- is refused as an invalid transition and changes nothing.
  pub tax_failure_blocks_cart :
      (c : CartProjection) (e : CartStreamEvent) (s : Stores) (current : CartState)
      (priced : List LinePrice) (x : TaxError) (c' : CartProjection) (e' : CartStreamEvent)
      → lookup id s.cart_states ≡ some current
      → next_cart_state current item_changed ≡ some items_mutated
      → runner.providers.resolve_prices s.moment c ≡ ok priced
      → runner.providers.resolve_tax (s.moment + 1) (with_prices c priced) ≡ err x
      → let t = (mutate_and_recalculate runner id c e s).1 in
        mutate_and_recalculate runner id c' e' t ≡ (err invalid_state_transition, t)
  unfolding next_cart_state
  tax_failure_blocks_cart c e s current priced x c' e' at n prices taxes =
      recalculation-refused c' e' _ repriced
        (left_repriced c e s current priced x at n prices taxes) refl
