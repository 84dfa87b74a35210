-- ===== src/Runtime/Runner/Carts/Answers.antt =====
-- What a successful cart command (dispatch_cart_command of
-- crates/orchestrator-runtime/src/runner.rs) returns is what it has stored.
use commerce_orchestrator_ap.Prelude.{
  ◌≡◌, refl, subst, sym, arith, if◌then◌else◌, Bool, true, false, Option, none, some,
}
use commerce_orchestrator_ap.Prelude.Dict.{lookup, lookup-insert_self}
use commerce_orchestrator_ap.Prelude.Eq.{nat_eq}
use commerce_orchestrator_ap.Core.Contract.{
  CartId, CartProjection, CartCommand, create_cart, add_item, update_item_qty, remove_item,
  apply_adjustment, get_cart, start_checkout, cancel_cart,
}
use commerce_orchestrator_ap.Core.Validation.{validate_cart_command}
use commerce_orchestrator_ap.Core.StateMachine.Cart.{CartState, CartEvent}
use commerce_orchestrator_ap.Runtime.Result.{Result, ok, err}
use commerce_orchestrator_ap.Runtime.Stores.Events.{CartStreamEvent}
use commerce_orchestrator_ap.Runtime.Monad.{
  M, Stores, Runner, RunnerError, cart_not_found, pure, raise, gets, or_raise, continue, ◌>>=◌,
  ◌>>◌,
}
use commerce_orchestrator_ap.Runtime.Monad.Post.{Holds}
use commerce_orchestrator_ap.Runtime.Runner.Events.{
  put_cart_snapshot, get_cart_snapshot, set_cart_state, get_cart_state, transition_cart,
  require_cart,
}
use commerce_orchestrator_ap.Runtime.Runner.Pricing.{mutate_and_recalculate}
use commerce_orchestrator_ap.Runtime.Runner.Fulfillment.{set_fulfillment_selection}
use commerce_orchestrator_ap.Runtime.Runner.Carts.{
  create, add, update_qty, remove, adjust, start, start_found, cancel_it, cancel_found, handle,
  dispatch_cart_command,
}
use commerce_orchestrator_ap.Runtime.Runner.Carts.Snapshots.{IsConsistent}

-- The cart that an outcome returns is the one stored under its id.
abbrev pub Returned : Result RunnerError CartProjection × Stores → Type 0
Returned = Holds (λ c t. lookup c.cart_id t.cart_snapshots ≡ some c) (λ _ _. Unit)

pub record Stored (m : M CartProjection) : Type 0 where
  pub at : (s : Stores) → Returned (m s)

module _ {A : Type 0} where
  continue-Stored :
      (r : Result RunnerError A) (f : A → M CartProjection) (s : Stores)
      → ((a : A) → Stored (f a))
      → Returned (continue r f s)
  continue-Stored (ok a) f s h = (h a).at s
  continue-Stored (err e) f s h = tt

  -- Only the end of a block matters.
  Stored-bind : (m : M A) (f : A → M CartProjection) → ((a : A) → Stored (f a)) → Stored (m >>= f)
  unfolding ◌>>=◌
  Stored-bind m f h = record { at = λ s. continue-Stored (m s).0 f (m s).1 h }

-- The ways in which the commands end.
put-Stored : (c : CartProjection) → Stored (put_cart_snapshot c >> pure c)
unfolding put_cart_snapshot ◌>>=◌ pure
put-Stored c = record { at = λ s. lookup-insert_self c.cart_id c s.cart_snapshots }

put_state-Stored :
    (c : CartProjection) (id : CartId) (state : CartState)
    → Stored (put_cart_snapshot c >> (set_cart_state id state >> pure c))
unfolding put_cart_snapshot set_cart_state ◌>>=◌ pure
put_state-Stored c id state = record { at = λ s. lookup-insert_self c.cart_id c s.cart_snapshots }

-- A transition does not touch the carts.
transition_keeps :
    (id : CartId) (e : CartEvent) (c : CartProjection) (s : Stores)
    → lookup c.cart_id s.cart_snapshots ≡ some c
    → Returned ((transition_cart id e >> pure c) s)
unfolding transition_cart get_cart_state set_cart_state or_raise ◌>>=◌ pure
transition_keeps id e c s h = ground arith

put_transition-Stored :
    (c : CartProjection) (id : CartId) (e : CartEvent)
    → Stored (put_cart_snapshot c >> (transition_cart id e >> pure c))
unfolding put_cart_snapshot ◌>>=◌
put_transition-Stored c id e = record {
  at = λ s. transition_keeps id e c _ (lookup-insert_self c.cart_id c s.cart_snapshots);
}

found-Returned :
    (found : Option CartProjection) (s : Stores)
    → ((c : CartProjection) → found ≡ some c → lookup c.cart_id s.cart_snapshots ≡ some c)
    → Returned (or_raise found cart_not_found s)
unfolding or_raise
found-Returned none s h = tt
found-Returned (some c) s h = h c refl

Returned-if :
    (b : Bool) (m n : M CartProjection) (s : Stores)
    → Returned (m s)
    → Returned (n s)
    → Returned ((if b then m else n) s)
Returned-if true m n s h k = h
Returned-if false m n s h k = k

raise-Stored : (e : RunnerError) → Stored (raise e)
unfolding raise
raise-Stored e = record { at = λ s. tt }

module _ (runner : Runner) where
  mutate-Stored :
      (id : CartId) (c : CartProjection) (e : CartStreamEvent)
      → Stored (mutate_and_recalculate runner id c e)
  unfolding mutate_and_recalculate
  mutate-Stored id c e = Stored-bind _ _ λ _. Stored-bind _ _ λ _. Stored-bind _ _ λ priced.
      Stored-bind _ _ λ _. Stored-bind _ _ λ _. Stored-bind _ _ λ taxed. Stored-bind _ _ λ q.
        Stored-bind _ _ λ _.
          Stored-bind _ _
            λ _. Stored-bind _ _ λ allowed. Stored-bind _ _ λ _. Stored-bind _ _ λ _. put-Stored _

  get-Returned : (id : CartId) (s : Stores) → IsConsistent s → Returned (require_cart id s)
  unfolding require_cart get_cart_snapshot gets ◌>>=◌
  get-Returned id s h =
      found-Returned (lookup id s.cart_snapshots) s
        λ c e. subst (λ k. lookup k s.cart_snapshots ≡ some c) (sym (h.keyed id c e)) e

  handle-Returned :
      (command : CartCommand) (cart_id : Option CartId) (s : Stores)
      → IsConsistent s
      → Returned (handle runner command cart_id s)
  unfolding create add update_qty remove adjust start start_found cancel_it cancel_found
      set_fulfillment_selection
  handle-Returned (create_cart p) cart_id s h =
      (Stored-bind _ _ λ id. Stored-bind _ _ λ _. put_state-Stored _ _ _).at s
  handle-Returned (add_item p) cart_id s h =
      (Stored-bind _ _ λ id.
          Stored-bind _ _
            λ item. Stored-bind _ _ λ cart. Stored-bind _ _ λ uuid. mutate-Stored _ _ _).at
        s
  handle-Returned (update_item_qty p) cart_id s h =
      (Stored-bind _ _ λ id. Stored-bind _ _ λ cart. Stored-bind _ _ λ _. mutate-Stored _ _ _).at s
  handle-Returned (remove_item p) cart_id s h =
      (Stored-bind _ _ λ id. Stored-bind _ _ λ cart. mutate-Stored _ _ _).at s
  handle-Returned (apply_adjustment p) cart_id s h =
      (Stored-bind _ _ λ id. Stored-bind _ _ λ cart. Stored-bind _ _ λ _. mutate-Stored _ _ _).at s
  handle-Returned (CartCommand.set_fulfillment_selection p) cart_id s h =
      (Stored-bind _ _ λ id. Stored-bind _ _ λ cart. Stored-bind _ _ λ ids.
          Stored-bind _ _ λ options. Stored-bind _ _ λ _. Stored-bind _ _ λ g. Stored-bind _ _ λ m.
            Stored-bind _ _ λ q. Stored-bind _ _ λ allowed. Stored-bind _ _ λ _. put-Stored _).at
        s
  handle-Returned (get_cart p) cart_id s h = get-Returned p.cart_id s h
  handle-Returned (start_checkout p) cart_id s h =
      (Stored-bind _ _
          λ cart. Stored-bind _ _ λ _. Stored-bind _ _ λ _. put_transition-Stored _ _ _).at
        s
  handle-Returned (cancel_cart p) cart_id s h =
      (Stored-bind _ _ λ cart. Stored-bind _ _ λ _. put_transition-Stored _ _ _).at s

  -- From consistent stores, the cart that a successful command returns is the one that is stored
  -- under its id afterwards.
  pub dispatch-Returned :
      (command : CartCommand) (cart_id : Option CartId) (s : Stores)
      → IsConsistent s
      → Returned (dispatch_cart_command runner command cart_id s)
  unfolding dispatch_cart_command
  dispatch-Returned command cart_id s h =
      Returned-if (validate_cart_command command).valid _ _ s (handle-Returned command cart_id s h)
        ((raise-Stored _).at s)
