-- ===== src/Runtime/Runner/Carts.antt =====
-- `dispatch_cart_command` of crates/orchestrator-runtime/src/runner.rs, an arm to a function.
pub mod Steps
pub mod Commands
pub mod Frame
pub mod Snapshots
pub mod Answers
pub mod Stuck
pub mod Revived
use Prim.Native.String.{◌++◌}
use commerce_orchestrator_ap.Prelude.{
  ℕ, String, Bool, true, false, not, ◌==◌, Option, none, some, List, [], ◌∷◌, any, retain,
  update_first, if◌then◌else◌,
}
use commerce_orchestrator_ap.Prelude.Lists
use commerce_orchestrator_ap.Prelude.Int.{ℤ, pos, mul64}
use commerce_orchestrator_ap.Prelude.Texts.{str_eq}
use commerce_orchestrator_ap.Core.Contract.{
  CartId, CartLineProjection, CartProjection, CartStatus, CartCommand, create_cart, add_item,
  update_item_qty, remove_item, apply_adjustment, get_cart, start_checkout, cancel_cart,
  CreateCartPayload, AddItemPayload, UpdateItemQtyPayload, RemoveItemPayload,
  ApplyAdjustmentPayload, GetCartPayload, StartCheckoutPayload, CancelCartPayload,
}
use commerce_orchestrator_ap.Core.StateMachine.Cart.{CartState, mark_checkout_ready, cancel}
use commerce_orchestrator_ap.Core.Validation.{validate_cart_command}
use commerce_orchestrator_ap.Runtime.Stores.Events.{
  CartStreamEvent, created, item_added, item_qty_updated, item_removed, adjustment_applied,
}
use commerce_orchestrator_ap.Runtime.Monad.{
  M, Runner, ◌>>=◌, ◌>>◌, pure, raise, ask, call, or_raise, raise_if, catalog, missing_cart_id,
  line_not_found, cart_version_conflict, validation,
}
use commerce_orchestrator_ap.Runtime.Runner.Events.{
  append_cart_event, put_cart_snapshot, set_cart_state, require_cart, transition_cart, next_version,
}
use commerce_orchestrator_ap.Runtime.Runner.Pricing.{mutate_and_recalculate, validate_adjustment}
use commerce_orchestrator_ap.Runtime.Runner.Fulfillment.{set_fulfillment_selection}

abbrev pub is_line : String → CartLineProjection → Bool
is_line line_id l = str_eq l.line_id line_id

-- The cart of `CreateCart`.
abbrev pub new_cart : CartId → CreateCartPayload → CartProjection
new_cart id payload = record {
  cart_id = id;
  version = 1;
  currency = payload.currency;
  merchant_id = payload.merchant_id;
  tenant_id = payload.tenant_id;
  lines = [];
  subtotal_minor = pos 0;
  tax_minor = pos 0;
  total_minor = pos 0;
  geo_ok = true;
  status = CartStatus.draft;
  fulfillment = none;
  fulfillment_minor = pos 0;
  adjustment_codes = [];
  discounts = [];
  discount_minor = pos 0;
}

-- `find(..).ok_or(LineNotFound)?` and the two writes through it
abbrev pub with_quantity : String → ℕ → List CartLineProjection → List CartLineProjection
with_quantity line_id quantity =
    update_first (is_line line_id)
      λ l. record l { quantity = quantity; total_minor = mul64 l.unit_price_minor (pos quantity) }

abbrev add_code : String → List String → List String
add_code code codes = if any (λ c. str_eq c code) codes then codes else Lists.append codes code

module _ (runner : Runner) where
  unfoldable pub create : CreateCartPayload → M CartProjection
  create payload = do
    id ← ask runner.world.new_v4
    append_cart_event id (created payload.merchant_id payload.currency)
    put_cart_snapshot (new_cart id payload)
    set_cart_state id CartState.cart_created
    pure (new_cart id payload)

  unfoldable pub add : Option CartId → AddItemPayload → M CartProjection
  add cart_id payload = do
    id ← or_raise cart_id missing_cart_id
    item ← call catalog λ n. runner.providers.get_item n payload.item_id
    cart ← require_cart id
    uuid ← ask runner.world.new_v4
    let line_id = "li_" ++ runner.world.uuid_text uuid
    mutate_and_recalculate runner id
        (record cart {
          lines = Lists.append cart.lines (record {
            line_id = line_id;
            item_id = item.id;
            title = item.title;
            quantity = payload.quantity;
            unit_price_minor = item.price_minor;
            total_minor = mul64 item.price_minor (pos payload.quantity);
          });
          version = next_version cart.version;
        })
        (item_added line_id payload.item_id payload.quantity)

  unfoldable pub update_qty : Option CartId → UpdateItemQtyPayload → M CartProjection
  update_qty cart_id payload = do
    id ← or_raise cart_id missing_cart_id
    cart ← require_cart id
    raise_if (not (any (is_line payload.line_id) cart.lines)) line_not_found
    mutate_and_recalculate runner id
        (record cart {
          lines = with_quantity payload.line_id payload.quantity cart.lines;
          version = next_version cart.version;
        })
        (item_qty_updated payload.line_id payload.quantity)

  unfoldable pub remove : Option CartId → RemoveItemPayload → M CartProjection
  remove cart_id payload = do
    id ← or_raise cart_id missing_cart_id
    cart ← require_cart id
    mutate_and_recalculate runner id
        (record cart {
          lines = retain (λ l. not (is_line payload.line_id l)) cart.lines;
          version = next_version cart.version;
        })
        (item_removed payload.line_id)

  unfoldable pub adjust : Option CartId → ApplyAdjustmentPayload → M CartProjection
  adjust cart_id payload = do
    id ← or_raise cart_id missing_cart_id
    cart ← require_cart id
    validate_adjustment runner payload.code
    mutate_and_recalculate runner id
        (record cart {
          adjustment_codes = add_code payload.code cart.adjustment_codes;
          version = next_version cart.version;
        })
        (adjustment_applied payload.code)

  -- `StartCheckout` once the cart is loaded.
  unfoldable pub start_found : StartCheckoutPayload → CartProjection → M CartProjection
  start_found payload cart = do
    raise_if (not (cart.version == payload.cart_version))
        (cart_version_conflict payload.cart_version cart.version)
    let ready : CartProjection = record cart {
      status = CartStatus.checkout_ready;
      version = next_version cart.version;
    }
    append_cart_event payload.cart_id CartStreamEvent.checkout_ready
    put_cart_snapshot ready
    transition_cart payload.cart_id mark_checkout_ready
    pure ready

  unfoldable pub start : StartCheckoutPayload → M CartProjection
  start payload = do cart ← require_cart payload.cart_id; start_found payload cart

  -- `CancelCart` once the cart is loaded.
  unfoldable pub cancel_found : CancelCartPayload → CartProjection → M CartProjection
  cancel_found payload cart = do
    let gone : CartProjection = record cart {
      status = CartStatus.cancelled;
      version = next_version cart.version;
    }
    append_cart_event payload.cart_id CartStreamEvent.cancelled
    put_cart_snapshot gone
    transition_cart payload.cart_id cancel
    pure gone

  unfoldable pub cancel_it : CancelCartPayload → M CartProjection
  cancel_it payload = do cart ← require_cart payload.cart_id; cancel_found payload cart

  -- The `match` on the command; its last arm, for variants to come, cannot be reached.
  abbrev pub handle : CartCommand → Option CartId → M CartProjection
  handle (create_cart payload) cart_id = create payload
  handle (add_item payload) cart_id = add cart_id payload
  handle (update_item_qty payload) cart_id = update_qty cart_id payload
  handle (remove_item payload) cart_id = remove cart_id payload
  handle (apply_adjustment payload) cart_id = adjust cart_id payload
  handle (CartCommand.set_fulfillment_selection payload) cart_id =
      set_fulfillment_selection runner cart_id payload
  handle (get_cart payload) cart_id = require_cart payload.cart_id
  handle (start_checkout payload) cart_id = start payload
  handle (cancel_cart payload) cart_id = cancel_it payload

  unfoldable pub dispatch_cart_command : CartCommand → Option CartId → M CartProjection
  dispatch_cart_command command cart_id =
      let checked = validate_cart_command command in
      if checked.valid then handle command cart_id else raise (validation checked.errors)
