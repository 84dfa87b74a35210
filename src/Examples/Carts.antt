-- ===== src/Examples/Carts.antt =====
-- Commands on the sample cart.
use commerce_orchestrator_ap.Prelude.{◌≡◌, refl, true, none, some, [], ◌∷◌}
use commerce_orchestrator_ap.Prelude.Dict.{lookup}
use commerce_orchestrator_ap.Prelude.Eq.{nat_eq}
use commerce_orchestrator_ap.Core.Contract.{
  CartCommand, create_cart, add_item, start_checkout, StartCheckoutPayload,
}
use commerce_orchestrator_ap.Core.StateMachine.Cart.{
  CartState, item_changed, items_mutated, next_cart_state,
}
use commerce_orchestrator_ap.Core.Validation.{validate_cart_command}
use commerce_orchestrator_ap.Runtime.Runner.Carts.Revived.{made_ready, start-revives_cancelled}
use commerce_orchestrator_ap.Runtime.Result.{err}
use commerce_orchestrator_ap.Runtime.Providers.{tax_failed}
use commerce_orchestrator_ap.Runtime.Stores.Events.{repriced}
use commerce_orchestrator_ap.Runtime.Monad.{Stores, invalid_state_transition}
use commerce_orchestrator_ap.Runtime.Runner.Pricing.{mutate_and_recalculate}
use commerce_orchestrator_ap.Runtime.Runner.Carts.{dispatch_cart_command}
use commerce_orchestrator_ap.Runtime.Runner.Carts.Snapshots.{IsConsistent, dispatch-IsConsistent}
use commerce_orchestrator_ap.Runtime.Runner.Carts.Answers.{Returned, dispatch-Returned}
use commerce_orchestrator_ap.Runtime.Runner.Carts.Frame.{SameBusiness, dispatch-SameBusiness}
use commerce_orchestrator_ap.Runtime.Runner.Carts.Stuck.{tax_failure_blocks_cart}
use commerce_orchestrator_ap.Examples.Samples.{
  shop, taxless_shop, price_of, mug_cart, mug_stores, empty_stores, two_mugs,
}

abbrev opening : CartCommand
opening = create_cart (record { merchant_id = "m"; currency = "EUR"; tenant_id = none })

-- The stores after a cart was opened, which gets the id 0.
abbrev opened : Stores
opened = (dispatch_cart_command shop opening none empty_stores).1

abbrev adding : CartCommand
adding = add_item (record { item_id = "mug"; quantity = 2 })

empty-IsConsistent : IsConsistent empty_stores
unfolding lookup
empty-IsConsistent = record { keyed = λ id c h. cc; priced = λ id c h. absurd cc }

opened-IsConsistent : IsConsistent opened
opened-IsConsistent = dispatch-IsConsistent shop opening none empty_stores empty-IsConsistent

dispatch-IsConsistent_example : IsConsistent (dispatch_cart_command shop adding (some 0) opened).1
dispatch-IsConsistent_example =
    dispatch-IsConsistent shop adding (some 0) opened opened-IsConsistent

dispatch-Returned_example : Returned (dispatch_cart_command shop adding (some 0) opened)
dispatch-Returned_example = dispatch-Returned shop adding (some 0) opened opened-IsConsistent

dispatch-SameBusiness_example :
    SameBusiness opened (dispatch_cart_command shop adding (some 0) opened).1
dispatch-SameBusiness_example = dispatch-SameBusiness shop adding (some 0) opened

mug_state : lookup 7 mug_stores.cart_states ≡ some CartState.geo_checked
unfolding lookup
mug_state = refl

mug_change : next_cart_state CartState.geo_checked item_changed ≡ some items_mutated
unfolding next_cart_state
mug_change = refl

tax_failure_blocks_cart_example :
    let t = (mutate_and_recalculate taxless_shop 7 mug_cart repriced mug_stores).1 in
    mutate_and_recalculate taxless_shop 7 mug_cart repriced t ≡ (err invalid_state_transition, t)
tax_failure_blocks_cart_example =
    tax_failure_blocks_cart taxless_shop 7 mug_cart repriced mug_stores CartState.geo_checked
      (price_of two_mugs ∷ []) (tax_failed "down") mug_cart repriced mug_state mug_change refl refl

-- The sample cart, cancelled.
abbrev cancelled_stores : Stores
cancelled_stores = record mug_stores { cart_states = (7, CartState.cancelled) ∷ [] }

abbrev starting : StartCheckoutPayload
starting = record { cart_id = 7; cart_version = 3 }

cancelled_state : lookup 7 cancelled_stores.cart_states ≡ some CartState.cancelled
unfolding lookup
cancelled_state = refl

cancelled_found : lookup 7 cancelled_stores.cart_snapshots ≡ some mug_cart
unfolding lookup
cancelled_found = refl

starting_is_valid : (validate_cart_command (start_checkout starting)).valid ≡ true
unfolding validate_cart_command
starting_is_valid = refl

start-revives_cancelled_example :
    let (r, t) = dispatch_cart_command shop (start_checkout starting) none cancelled_stores in
    (r ≡ err invalid_state_transition) × (lookup 7 t.cart_snapshots ≡ some (made_ready mug_cart))
start-revives_cancelled_example =
    start-revives_cancelled shop starting mug_cart cancelled_stores cancelled_state refl refl
      starting_is_valid cancelled_found
