-- ===== src/Runtime/Runner/Carts/Steps.antt =====
-- The cart commands of crates/orchestrator-runtime/src/runner.rs, judged by a relation between the
-- stores before and after: one lemma for each method, used for every invariant of the carts.
use commerce_orchestrator_ap.Prelude.{ℕ, String, Option, none, some, is_empty}
use commerce_orchestrator_ap.Core.Contract.{CartId, CartProjection}
use commerce_orchestrator_ap.Core.StateMachine.Cart.{CartState, CartEvent}
use commerce_orchestrator_ap.Runtime.Result.{Result}
use commerce_orchestrator_ap.Runtime.Stores.Events.{CartStreamEvent}
use commerce_orchestrator_ap.Runtime.Monad.{Stores, Runner, RunnerError, ask, call}
use commerce_orchestrator_ap.Runtime.Monad.Post.{
  Order, Moves, Moves-pure, Moves-or_raise, Moves-gets, Moves-bind, Moves-bind-Yields, Moves-if,
}
use commerce_orchestrator_ap.Runtime.Runner.Events.{
  append_cart_event, put_cart_snapshot, get_cart_snapshot, get_cart_state, set_cart_state,
  require_cart, transition_cart,
}
use commerce_orchestrator_ap.Runtime.Runner.Pricing.{
  apply_discounts, check_geo, validate_adjustment, look_up_item, item_of_code, reprice_for_checkout,
  mutate_and_recalculate,
}
use commerce_orchestrator_ap.Runtime.Runner.Pricing.Totals.{
  IsPriced, IsPriced-relabel, apply_discounts-IsPriced,
}

-- A relation that a call to the outside, an event and a change of a cart's state respect, and the
-- storing of a priced cart too.
pub record CartOrder (R : Stores → Stores → Type 0) : Type 0 where
  pub order : Order R
  pub ticks : (s : Stores) (n : ℕ) → R s (record s { moment = n })
  pub events : (cart_id : CartId) (e : CartStreamEvent) → Moves R (append_cart_event cart_id e)
  pub states : (cart_id : CartId) (state : CartState) → Moves R (set_cart_state cart_id state)
  pub stores : (c : CartProjection) → IsPriced c → Moves R (put_cart_snapshot c)

module _ {R : Stores → Stores → Type 0} (o : CartOrder R) where
  pub Moves-ask : {A : Type 0} (f : ℕ → A) → Moves R (ask f)
  unfolding ask
  Moves-ask f = record { at = λ s. o.ticks s _ }

  pub Moves-call :
      {E A : Type 0} (wrap : E → RunnerError) (f : ℕ → Result E A) → Moves R (call wrap f)
  unfolding call
  Moves-call wrap f = record { at = λ s. o.ticks s _ }

  pub require_cart-Moves : (id : CartId) → Moves R (require_cart id)
  unfolding require_cart get_cart_snapshot
  require_cart-Moves id =
      Moves-bind o.order (Moves-gets o.order _) λ found. Moves-or_raise o.order found _

  pub transition_cart-Moves : (id : CartId) (e : CartEvent) → Moves R (transition_cart id e)
  unfolding transition_cart get_cart_state
  transition_cart-Moves id e = Moves-bind o.order (Moves-gets o.order _) λ found.
      Moves-bind o.order (Moves-or_raise o.order found _)
        λ current. Moves-bind o.order (Moves-or_raise o.order _ _) λ next. o.states id next

  module _ (runner : Runner) where
    pub apply_discounts-Moves : (c : CartProjection) → Moves R (apply_discounts runner c)
    unfolding apply_discounts
    apply_discounts-Moves c =
        Moves-if (is_empty c.adjustment_codes) _ _ (Moves-pure o.order _)
          (Moves-bind o.order (Moves-call _ _) λ ds. Moves-pure o.order _)

    pub check_geo-Moves : (c : CartProjection) → Moves R (check_geo runner c)
    unfolding check_geo
    check_geo-Moves c = Moves-bind o.order (Moves-call _ _) λ a. Moves-pure o.order _

    look_up_item-Moves : (item : Option String) → Moves R (look_up_item runner item)
    look_up_item-Moves none = Moves-pure o.order _
    look_up_item-Moves (some id) = Moves-bind o.order (Moves-call _ _) λ i. Moves-pure o.order _

    pub validate_adjustment-Moves : (code : String) → Moves R (validate_adjustment runner code)
    unfolding validate_adjustment
    validate_adjustment-Moves code = look_up_item-Moves (item_of_code code)

    pub reprice-Moves : (c : CartProjection) → Moves R (reprice_for_checkout runner c)
    unfolding reprice_for_checkout
    reprice-Moves c =
        Moves-bind o.order (Moves-call _ _)
          λ priced. Moves-bind o.order (Moves-call _ _) λ taxed. apply_discounts-Moves _

    pub mutate-Moves :
        (id : CartId) (c : CartProjection) (e : CartStreamEvent)
        → Moves R (mutate_and_recalculate runner id c e)
    unfolding mutate_and_recalculate
    mutate-Moves id c e = Moves-bind o.order (transition_cart-Moves id _) λ _.
        Moves-bind o.order (o.events id e) λ _. Moves-bind o.order (Moves-call _ _) λ priced.
          Moves-bind o.order (transition_cart-Moves id _) λ _.
            Moves-bind o.order (o.events id _) λ _. Moves-bind o.order (Moves-call _ _) λ taxed.
              Moves-bind-Yields o.order (apply_discounts-Moves _)
                (apply_discounts-IsPriced runner _)
                λ q h. Moves-bind o.order (transition_cart-Moves id _) λ _.
                  Moves-bind o.order (o.events id _) λ _.
                    Moves-bind o.order (check_geo-Moves q) λ allowed.
                      Moves-bind o.order (transition_cart-Moves id _) λ _.
                        Moves-bind o.order (o.events id _) λ _.
                          Moves-bind o.order (o.stores _ (IsPriced-relabel q h allowed _ _))
                            λ _. Moves-pure o.order _
