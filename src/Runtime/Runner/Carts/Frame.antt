-- ===== src/Runtime/Runner/Carts/Frame.antt =====
-- What the cart commands of crates/orchestrator-runtime/src/runner.rs leave alone.
use commerce_orchestrator_ap.Prelude.{ℕ, ◌≡◌, refl, ◌∙◌, Option, List}
use commerce_orchestrator_ap.Prelude.Dict.{Dict}
use commerce_orchestrator_ap.Core.StateMachine.Cart.{CartState}
use commerce_orchestrator_ap.Runtime.Stores.Events.{CartStreamEvent}
use commerce_orchestrator_ap.Core.Contract.{
  CartId, CartProjection, CartCommand, StartCheckoutPayload, CancelCartPayload,
}
use commerce_orchestrator_ap.Runtime.Monad.{Stores, Runner}
use commerce_orchestrator_ap.Runtime.Monad.Post.{
  Order, Moves, Moves-pure, Moves-raise_if, Moves-bind,
}
use commerce_orchestrator_ap.Runtime.Runner.Events.{
  append_cart_event, put_cart_snapshot, set_cart_state,
}
use commerce_orchestrator_ap.Runtime.Runner.Carts.{
  start, start_found, cancel_it, cancel_found, dispatch_cart_command,
}
use commerce_orchestrator_ap.Runtime.Runner.Carts.Steps.{
  CartOrder, require_cart-Moves, transition_cart-Moves,
}
use commerce_orchestrator_ap.Runtime.Runner.Carts.Commands.{dispatch-Moves}

-- Everything but the carts themselves and the count of outside calls is as it was.
pub record SameBusiness (s t : Stores) : Type 0 where
  pub idempotency : t.idempotency ≡ s.idempotency
  pub commits : t.commits ≡ s.commits
  pub reservations : t.reservations ≡ s.reservations
  pub outbox : t.outbox ≡ s.outbox
  pub inbox : t.inbox ≡ s.inbox
  pub dead_letter : t.dead_letter ≡ s.dead_letter
  pub orders : t.orders ≡ s.orders
  pub payment_states : t.payment_states ≡ s.payment_states
  pub mandates : t.mandates ≡ s.mandates
  pub payments : t.payments ≡ s.payments

-- The fields that a cart command may write.
unchanged :
    (s : Stores) (events : Dict CartId (List CartStreamEvent))
    (snapshots : Dict CartId CartProjection) (states : Dict CartId CartState) (n : ℕ)
    → SameBusiness s (record s {
      cart_events = events;
      cart_snapshots = snapshots;
      cart_states = states;
      moment = n;
    })
unchanged s events snapshots states n = record {
  idempotency = refl;
  commits = refl;
  reservations = refl;
  outbox = refl;
  inbox = refl;
  dead_letter = refl;
  orders = refl;
  payment_states = refl;
  mandates = refl;
  payments = refl;
}

pub SameBusiness-order : Order SameBusiness
SameBusiness-order = record {
  same = λ s. unchanged s _ _ _ _;
  join = λ s t u h k. record {
    idempotency = k.idempotency ∙ h.idempotency;
    commits = k.commits ∙ h.commits;
    reservations = k.reservations ∙ h.reservations;
    outbox = k.outbox ∙ h.outbox;
    inbox = k.inbox ∙ h.inbox;
    dead_letter = k.dead_letter ∙ h.dead_letter;
    orders = k.orders ∙ h.orders;
    payment_states = k.payment_states ∙ h.payment_states;
    mandates = k.mandates ∙ h.mandates;
    payments = k.payments ∙ h.payments;
  };
}

put-SameBusiness : (c : CartProjection) → Moves SameBusiness (put_cart_snapshot c)
unfolding put_cart_snapshot
put-SameBusiness c = record { at = λ s. unchanged s _ _ _ _ }

pub SameBusiness-cart_order : CartOrder SameBusiness
unfolding append_cart_event set_cart_state
SameBusiness-cart_order = record {
  order = SameBusiness-order;
  ticks = λ s n. unchanged s _ _ _ _;
  events = λ cart_id e. record { at = λ s. unchanged s _ _ _ _ };
  states = λ cart_id state. record { at = λ s. unchanged s _ _ _ _ };
  stores = λ c p. put-SameBusiness c;
}

module _ (runner : Runner) where
  abbrev o : CartOrder SameBusiness
  o = SameBusiness-cart_order

  start-SameBusiness : (payload : StartCheckoutPayload) → Moves SameBusiness (start runner payload)
  unfolding start start_found
  start-SameBusiness payload = Moves-bind o.order (require_cart-Moves o payload.cart_id) λ cart.
      Moves-bind o.order (Moves-raise_if o.order _ _) λ _.
        Moves-bind o.order (o.events payload.cart_id _) λ _.
          Moves-bind o.order (put-SameBusiness _) λ _.
            Moves-bind o.order (transition_cart-Moves o payload.cart_id _) λ _. Moves-pure o.order _

  cancel-SameBusiness :
      (payload : CancelCartPayload) → Moves SameBusiness (cancel_it runner payload)
  unfolding cancel_it cancel_found
  cancel-SameBusiness payload = Moves-bind o.order (require_cart-Moves o payload.cart_id) λ cart.
      Moves-bind o.order (o.events payload.cart_id _) λ _.
        Moves-bind o.order (put-SameBusiness _) λ _.
          Moves-bind o.order (transition_cart-Moves o payload.cart_id _) λ _. Moves-pure o.order _

  -- A cart command, whether it succeeds or fails, calls no payment operation and leaves the
  -- idempotency keys, the commits, the reservations, the outbox, the inbox, the dead letters, the
  -- orders, the payment states and the mandates as they were.
  pub dispatch-SameBusiness :
      (command : CartCommand) (cart_id : Option CartId) (s : Stores)
      → SameBusiness s (dispatch_cart_command runner command cart_id s).1
  dispatch-SameBusiness command cart_id =
      (dispatch-Moves o runner start-SameBusiness cancel-SameBusiness command cart_id).at
