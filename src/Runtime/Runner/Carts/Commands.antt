-- ===== src/Runtime/Runner/Carts/Commands.antt =====
-- The arms of dispatch_cart_command (crates/orchestrator-runtime/src/runner.rs), each judged by a
-- relation between the stores before and after.
use commerce_orchestrator_ap.Prelude.{refl, Option, none, some, arith}
use commerce_orchestrator_ap.Core.Contract.{
  CartId, CartProjection, CartCommand, create_cart, add_item, update_item_qty, remove_item,
  apply_adjustment, get_cart, start_checkout, cancel_cart, SetFulfillmentSelectionPayload,
  CreateCartPayload, AddItemPayload, UpdateItemQtyPayload, RemoveItemPayload,
  ApplyAdjustmentPayload, StartCheckoutPayload, CancelCartPayload,
}
use commerce_orchestrator_ap.Core.Validation.{validate_cart_command}
use commerce_orchestrator_ap.Runtime.Providers.{Quoter, FulfillmentQuoteRequest}
use commerce_orchestrator_ap.Runtime.Monad.{Stores, Runner}
use commerce_orchestrator_ap.Runtime.Monad.Post.{
  Moves, Moves-pure, Moves-raise, Moves-or_raise, Moves-raise_if, Moves-bind, Moves-bind-Yields,
  Moves-if,
}
use commerce_orchestrator_ap.Prelude.Int.{add64, wrap64, ◌+ℤ◌, ◌-ℤ◌}
use commerce_orchestrator_ap.Runtime.Runner.Pricing.Totals.{
  IsPriced, IsPriced-relabel, apply_discounts-IsPriced,
}
use commerce_orchestrator_ap.Runtime.Runner.Fulfillment.{set_fulfillment_selection, quote_from}
use commerce_orchestrator_ap.Runtime.Runner.Carts.{
  create, add, update_qty, remove, adjust, start, cancel_it, new_cart, handle,
  dispatch_cart_command,
}
use commerce_orchestrator_ap.Runtime.Runner.Carts.Steps.{
  CartOrder, Moves-ask, Moves-call, require_cart-Moves, apply_discounts-Moves, check_geo-Moves,
  validate_adjustment-Moves, mutate-Moves,
}

pub new_cart-IsPriced : (id : CartId) (payload : CreateCartPayload) → IsPriced (new_cart id payload)
unfolding add64 wrap64 ◌+ℤ◌ ◌-ℤ◌
new_cart-IsPriced id payload = record {
  exact = refl;
  not_negative = omega arith;
  bounded = omega arith;
}

module _ {R : Stores → Stores → Type 0} (o : CartOrder R) (runner : Runner) where
  pub create-Moves : (payload : CreateCartPayload) → Moves R (create runner payload)
  unfolding create
  create-Moves payload = Moves-bind o.order (Moves-ask o _) λ id.
      Moves-bind o.order (o.events id _) λ _.
        Moves-bind o.order (o.stores _ (new_cart-IsPriced id payload))
          λ _. Moves-bind o.order (o.states id _) λ _. Moves-pure o.order _

  pub add-Moves :
      (cart_id : Option CartId) (payload : AddItemPayload) → Moves R (add runner cart_id payload)
  unfolding add
  add-Moves cart_id payload = Moves-bind o.order (Moves-or_raise o.order cart_id _) λ id.
      Moves-bind o.order (Moves-call o _ _) λ item.
        Moves-bind o.order (require_cart-Moves o id)
          λ cart. Moves-bind o.order (Moves-ask o _) λ uuid. mutate-Moves o runner id _ _

  pub update_qty-Moves :
      (cart_id : Option CartId) (payload : UpdateItemQtyPayload)
      → Moves R (update_qty runner cart_id payload)
  unfolding update_qty
  update_qty-Moves cart_id payload = Moves-bind o.order (Moves-or_raise o.order cart_id _) λ id.
      Moves-bind o.order (require_cart-Moves o id)
        λ cart. Moves-bind o.order (Moves-raise_if o.order _ _) λ _. mutate-Moves o runner id _ _

  pub remove-Moves :
      (cart_id : Option CartId) (payload : RemoveItemPayload)
      → Moves R (remove runner cart_id payload)
  unfolding remove
  remove-Moves cart_id payload =
      Moves-bind o.order (Moves-or_raise o.order cart_id _)
        λ id. Moves-bind o.order (require_cart-Moves o id) λ cart. mutate-Moves o runner id _ _

  pub adjust-Moves :
      (cart_id : Option CartId) (payload : ApplyAdjustmentPayload)
      → Moves R (adjust runner cart_id payload)
  unfolding adjust
  adjust-Moves cart_id payload = Moves-bind o.order (Moves-or_raise o.order cart_id _) λ id.
      Moves-bind o.order (require_cart-Moves o id) λ cart.
        Moves-bind o.order (validate_adjustment-Moves o runner payload.code)
          λ _. mutate-Moves o runner id _ _

  quote-Moves :
      (quoter : Option Quoter) (cart : CartProjection) (request : FulfillmentQuoteRequest)
      → Moves R (quote_from runner quoter cart request)
  quote-Moves none cart request = Moves-pure o.order _
  quote-Moves (some provider) cart request = Moves-call o _ _

  pub select-Moves :
      (cart_id : Option CartId) (payload : SetFulfillmentSelectionPayload)
      → Moves R (set_fulfillment_selection runner cart_id payload)
  unfolding set_fulfillment_selection
  select-Moves cart_id payload = Moves-bind o.order (Moves-or_raise o.order cart_id _) λ id.
      Moves-bind o.order (require_cart-Moves o id) λ cart.
        Moves-bind o.order (Moves-or_raise o.order _ _) λ ids.
          Moves-bind o.order (quote-Moves runner.providers.fulfillment cart _) λ options.
            Moves-bind o.order (Moves-raise_if o.order _ _) λ _.
              Moves-bind o.order (Moves-ask o _) λ group_uuid.
                Moves-bind o.order (Moves-ask o _) λ method_uuid.
                  Moves-bind-Yields o.order (apply_discounts-Moves o runner _)
                    (apply_discounts-IsPriced runner _)
                    λ p h. Moves-bind o.order (check_geo-Moves o runner p) λ allowed.
                      Moves-bind o.order (o.events id _) λ _.
                        Moves-bind o.order (o.stores _ (IsPriced-relabel p h allowed _ _))
                          λ _. Moves-pure o.order _

  -- All commands, given the two that store what they have read.
  module _ (start-Moves : (payload : StartCheckoutPayload) → Moves R (start runner payload))
      (cancel-Moves : (payload : CancelCartPayload) → Moves R (cancel_it runner payload)) where
    handle-Moves :
        (command : CartCommand) (cart_id : Option CartId) → Moves R (handle runner command cart_id)
    handle-Moves (create_cart payload) cart_id = create-Moves payload
    handle-Moves (add_item payload) cart_id = add-Moves cart_id payload
    handle-Moves (update_item_qty payload) cart_id = update_qty-Moves cart_id payload
    handle-Moves (remove_item payload) cart_id = remove-Moves cart_id payload
    handle-Moves (apply_adjustment payload) cart_id = adjust-Moves cart_id payload
    handle-Moves (CartCommand.set_fulfillment_selection payload) cart_id =
        select-Moves cart_id payload
    handle-Moves (get_cart payload) cart_id = require_cart-Moves o payload.cart_id
    handle-Moves (start_checkout payload) cart_id = start-Moves payload
    handle-Moves (cancel_cart payload) cart_id = cancel-Moves payload

    pub dispatch-Moves :
        (command : CartCommand) (cart_id : Option CartId)
        → Moves R (dispatch_cart_command runner command cart_id)
    unfolding dispatch_cart_command
    dispatch-Moves command cart_id =
        Moves-if (validate_cart_command command).valid _ _ (handle-Moves command cart_id)
          (Moves-raise o.order _)
