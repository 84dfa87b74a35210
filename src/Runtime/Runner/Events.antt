-- ===== src/Runtime/Runner/Events.antt =====
-- The event store of crates/orchestrator-runtime/src/runner.rs (InMemoryEventStore), and the
-- runner's steps that work on it alone.
use commerce_orchestrator_ap.Prelude.{ℕ, ◌+◌, ◌%◌, Option, none, some, List, [], ◌∷◌, ◌++◌, ◌≡◌}
use commerce_orchestrator_ap.Prelude.Int.{u64_mod}
use commerce_orchestrator_ap.Prelude.Eq.{nat_eq}
use commerce_orchestrator_ap.Prelude.Dict.{lookup, insert}
use commerce_orchestrator_ap.Core.Contract.{CartId, CartProjection}
use commerce_orchestrator_ap.Core.StateMachine.Cart.{CartState, CartEvent, next_cart_state}
use commerce_orchestrator_ap.Runtime.Result.{err}
use commerce_orchestrator_ap.Runtime.Stores.Events.{CartStreamEvent}
use commerce_orchestrator_ap.Runtime.Monad.{
  M, Stores, ◌>>=◌, gets, modify, or_raise, cart_not_found, invalid_state_transition,
}

-- `entry(cart_id).or_default()`
abbrev or_default : Option (List CartStreamEvent) → List CartStreamEvent
or_default none = []
or_default (some events) = events

unfoldable pub append_cart_event : CartId → CartStreamEvent → M (Unit {0})
unfolding modify
append_cart_event cart_id event = modify λ s. record s {
  cart_events =
      insert cart_id (or_default (lookup cart_id s.cart_events) ++ event ∷ []) s.cart_events;
}

unfoldable pub put_cart_snapshot : CartProjection → M (Unit {0})
unfolding modify
put_cart_snapshot snapshot =
    modify λ s. record s { cart_snapshots = insert snapshot.cart_id snapshot s.cart_snapshots }

unfoldable pub get_cart_snapshot : CartId → M (Option CartProjection)
unfolding gets
get_cart_snapshot cart_id = gets λ s. lookup cart_id s.cart_snapshots

unfoldable pub get_cart_state : CartId → M (Option CartState)
unfolding gets
get_cart_state cart_id = gets λ s. lookup cart_id s.cart_states

unfoldable pub set_cart_state : CartId → CartState → M (Unit {0})
unfolding modify
set_cart_state cart_id state =
    modify λ s. record s { cart_states = insert cart_id state s.cart_states }

-- `get_cart_snapshot(&id).await.ok_or(RunnerError::CartNotFound)?`
unfoldable pub require_cart : CartId → M CartProjection
require_cart cart_id = do found ← get_cart_snapshot cart_id; or_raise found cart_not_found

unfoldable pub transition_cart : CartId → CartEvent → M (Unit {0})
transition_cart cart_id event = do
  found ← get_cart_state cart_id
  current ← or_raise found cart_not_found
  next ← or_raise (next_cart_state current event) invalid_state_transition
  set_cart_state cart_id next

-- The rest of a block that begins by loading a cart.
module _ {B : Type 0} (id : CartId) (f : CartProjection → M B) (s : Stores) where
  pub require_cart-found :
      (c : CartProjection) → lookup id s.cart_snapshots ≡ some c → (require_cart id >>= f) s ≡ f c s
  unfolding require_cart get_cart_snapshot or_raise ◌>>=◌
  require_cart-found c e = rw (e, or_raise)

  pub require_cart-missing :
      lookup id s.cart_snapshots ≡ none → (require_cart id >>= f) s ≡ (err cart_not_found, s)
  unfolding require_cart get_cart_snapshot or_raise ◌>>=◌
  require_cart-missing e = rw (e, or_raise)

-- `version += 1` on a `u64`
abbrev pub next_version : ℕ → ℕ
next_version v = (v + 1) % u64_mod
