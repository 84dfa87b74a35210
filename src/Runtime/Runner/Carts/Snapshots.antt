-- ===== src/Runtime/Runner/Carts/Snapshots.antt =====
-- The stored carts of crates/orchestrator-runtime/src/runner.rs: an invariant of every command, and
-- what a successful command returns.
use commerce_orchestrator_ap.Prelude.{◌≡◌, refl, subst, Option, some, Option-cases, inl, inr}
use commerce_orchestrator_ap.Prelude.Dict.{lookup, lookup-insert_cases}
use commerce_orchestrator_ap.Prelude.Eq.{nat_eq}
use commerce_orchestrator_ap.Core.Contract.{
  CartId, CartProjection, CartCommand, StartCheckoutPayload, CancelCartPayload,
}
use commerce_orchestrator_ap.Runtime.Monad.{Stores, Runner, M, ◌>>=◌}
use commerce_orchestrator_ap.Runtime.Monad.Post.{Moves, Moves-pure, Moves-raise_if, Moves-bind}
use commerce_orchestrator_ap.Runtime.Runner.Events.{
  append_cart_event, put_cart_snapshot, set_cart_state, require_cart, require_cart-found,
  require_cart-missing,
}
use commerce_orchestrator_ap.Runtime.Runner.Pricing.Totals.{IsPriced, IsPriced-relabel}
use commerce_orchestrator_ap.Runtime.Runner.Carts.{
  start, start_found, cancel_it, cancel_found, dispatch_cart_command,
}
use commerce_orchestrator_ap.Runtime.Runner.Carts.Steps.{CartOrder, transition_cart-Moves}
use commerce_orchestrator_ap.Runtime.Runner.Carts.Commands.{dispatch-Moves}

-- Every stored cart is stored under its own id, and its amounts add up.
pub record IsConsistent (s : Stores) : Type 0 where
  pub keyed :
      (id : CartId) (c : CartProjection) → lookup id s.cart_snapshots ≡ some c → c.cart_id ≡ id
  pub priced : (id : CartId) (c : CartProjection) → lookup id s.cart_snapshots ≡ some c → IsPriced c

-- A step that keeps the invariant.
abbrev pub Keeps : Stores → Stores → Type 0
Keeps s t = IsConsistent s → IsConsistent t

with_carts : (s t : Stores) → t.cart_snapshots ≡ s.cart_snapshots → IsConsistent s → IsConsistent t
with_carts s t e h = record {
  keyed = λ id c f. h.keyed id c (rw (← e) f);
  priced = λ id c f. h.priced id c (rw (← e) f);
}

put-Keeps : (c : CartProjection) → IsPriced c → Moves Keeps (put_cart_snapshot c)
unfolding put_cart_snapshot
put-Keeps c p = record {
  at = λ s h. record {
    keyed = λ id d f. elim (lookup-insert_cases c.cart_id id c s.cart_snapshots f) [
      | inl (same, new) ↦ rw (← new) same
      | inr old ↦ h.keyed id d old
    ];
    priced = λ id d f. elim (lookup-insert_cases c.cart_id id c s.cart_snapshots f) [
      | inl (same, new) ↦ subst IsPriced new p
      | inr old ↦ h.priced id d old
    ];
  };
}

pub Keeps-cart_order : CartOrder Keeps
unfolding append_cart_event set_cart_state
Keeps-cart_order = record {
  order = record { same = λ s h. h; join = λ s t u f g h. g (f h) };
  ticks = λ s n h. with_carts s _ refl h;
  events = λ cart_id e. record { at = λ s h. with_carts s _ refl h };
  states = λ cart_id state. record { at = λ s h. with_carts s _ refl h };
  stores = put-Keeps;
}

module _ (runner : Runner) where
  abbrev o : CartOrder Keeps
  o = Keeps-cart_order

  start_found-Keeps :
      (payload : StartCheckoutPayload) (c : CartProjection)
      → IsPriced c
      → Moves Keeps (start_found runner payload c)
  unfolding start_found
  start_found-Keeps payload c p = Moves-bind o.order (Moves-raise_if o.order _ _) λ _.
      Moves-bind o.order (o.events payload.cart_id _) λ _.
        Moves-bind o.order (o.stores _ (IsPriced-relabel c p _ _ _)) λ _.
          Moves-bind o.order (transition_cart-Moves o payload.cart_id _) λ _. Moves-pure o.order _

  cancel_found-Keeps :
      (payload : CancelCartPayload) (c : CartProjection)
      → IsPriced c
      → Moves Keeps (cancel_found runner payload c)
  unfolding cancel_found
  cancel_found-Keeps payload c p = Moves-bind o.order (o.events payload.cart_id _) λ _.
      Moves-bind o.order (o.stores _ (IsPriced-relabel c p _ _ _)) λ _.
        Moves-bind o.order (transition_cart-Moves o payload.cart_id _) λ _. Moves-pure o.order _

  -- A block that loads a cart may take it for priced.
  loaded-Keeps :
      {B : Type 0} (id : CartId) (f : CartProjection → M B)
      → ((c : CartProjection) → IsPriced c → Moves Keeps (f c))
      → Moves Keeps (require_cart id >>= f)
  loaded-Keeps id f k = record {
    at = λ s h. elim (Option-cases (lookup id s.cart_snapshots)) [
      | inl missing ↦ rw (require_cart-missing id f s missing) h
      | inr (c, e) ↦ rw (require_cart-found id f s c e) ((k c (h.priced id c e)).at s h)
    ];
  }

  start-Keeps : (payload : StartCheckoutPayload) → Moves Keeps (start runner payload)
  unfolding start
  start-Keeps payload = loaded-Keeps payload.cart_id _ (start_found-Keeps payload)

  cancel-Keeps : (payload : CancelCartPayload) → Moves Keeps (cancel_it runner payload)
  unfolding cancel_it
  cancel-Keeps payload = loaded-Keeps payload.cart_id _ (cancel_found-Keeps payload)

  -- Every cart command, whether it succeeds or fails, keeps each stored cart under its own id and
  -- priced: its total is exactly the sum of subtotal, tax and fulfillment, which as an i64 may wrap,
  -- less the discount, and the discount is not negative, at most that sum where it is positive, and
  -- nothing where it is not.
  pub dispatch-IsConsistent :
      (command : CartCommand) (cart_id : Option CartId) (s : Stores)
      → IsConsistent s
      → IsConsistent (dispatch_cart_command runner command cart_id s).1
  dispatch-IsConsistent command cart_id =
      (dispatch-Moves o runner start-Keeps cancel-Keeps command cart_id).at
