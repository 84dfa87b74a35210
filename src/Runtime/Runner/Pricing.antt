-- ===== src/Runtime/Runner/Pricing.antt =====
-- What a cart costs: mutate_and_recalculate, reprice_for_checkout, check_geo, apply_discounts and
-- validate_adjustment of crates/orchestrator-runtime/src/runner.rs.
pub mod Totals
pub mod Goods
use commerce_orchestrator_ap.Prelude.{
  ℕ, String, Bool, true, false, Option, none, some, List, [], ◌∷◌, foldl, map, is_empty,
  update_first, if◌then◌else◌,
}
use commerce_orchestrator_ap.Prelude.Int.{ℤ, pos, add64, sub64}
use commerce_orchestrator_ap.Prelude.Texts.{str_eq, str_is_empty, strip_prefix, split_first}
use commerce_orchestrator_ap.Core.Discount.{AppliedDiscount, total_discount_minor}
use commerce_orchestrator_ap.Core.Contract.{
  CartId, CartLineProjection, CartProjection, CheckoutRequest, PaymentIntent,
}
use commerce_orchestrator_ap.Core.Contract.Location.{location_hint}
use commerce_orchestrator_ap.Core.StateMachine.Cart.{
  item_changed, pricing_resolved, tax_resolved, geo_validated,
}
use commerce_orchestrator_ap.Runtime.Providers.{LinePrice}
use commerce_orchestrator_ap.Runtime.Stores.Events.{CartStreamEvent, repriced, retaxed, geo_checked}
use commerce_orchestrator_ap.Runtime.Monad.{
  M, Runner, ◌>>=◌, ◌>>◌, pure, call, catalog, pricing, tax, geo,
}
use commerce_orchestrator_ap.Runtime.Runner.Events.{
  append_cart_event, put_cart_snapshot, transition_cart,
}

-- The line that a price names takes the price's amounts.
abbrev pub apply_price : List CartLineProjection → LinePrice → List CartLineProjection
apply_price lines p =
    update_first (λ l. str_eq l.line_id p.line_id)
      (λ l. record l { unit_price_minor = p.unit_price_minor; total_minor = p.total_minor }) lines

-- `lines.iter().map(|l| l.total_minor).sum()`
unfoldable pub sum_lines : List CartLineProjection → ℤ
sum_lines lines = foldl add64 (pos 0) (map (λ l. l.total_minor) lines)

-- The lines and the subtotal after `resolve_prices`.
unfoldable pub with_prices : CartProjection → List LinePrice → CartProjection
with_prices cart priced =
    let lines = foldl apply_price cart.lines priced in
    record cart { lines = lines; subtotal_minor = sum_lines lines }

-- `subtotal_minor + tax_minor + fulfillment_minor`
abbrev pub gross : CartProjection → ℤ
gross cart = add64 (add64 cart.subtotal_minor cart.tax_minor) cart.fulfillment_minor

-- The total without any code.
abbrev pub undiscounted : CartProjection → CartProjection
undiscounted cart = record cart { discounts = []; discount_minor = pos 0; total_minor = gross cart }

-- The total under the discounts that the provider grants.
abbrev pub discounted : CartProjection → List AppliedDiscount → CartProjection
discounted cart granted =
    let discount = total_discount_minor granted (gross cart) in
    record cart {
      discount_minor = discount;
      discounts = granted;
      total_minor = sub64 (gross cart) discount;
    }

abbrev or_empty : Option String → String
or_empty none = ""
or_empty (some s) = s

-- `geo_check_request`
unfoldable pub geo_check_request : CartProjection → CheckoutRequest
geo_check_request cart = record {
  tenant_id = or_empty cart.tenant_id;
  merchant_id = cart.merchant_id;
  cart_id = cart.cart_id;
  cart_version = cart.version;
  currency = cart.currency;
  customer = none;
  location = location_hint cart;
  payment_intent = record {
    amount_minor = cart.total_minor;
    token_or_reference = "";
    ap2_consent_proof = none;
    payment_handler_id = none;
    payment_method_type = none;
    mpp_method = none;
    mpp_intent = none;
  };
  idempotency_key = "";
}

-- The item that a code of the form `item:<item_id>:<campaign>` names.
unfoldable pub item_of_code : String → Option String
item_of_code code = elim (strip_prefix "item:" code) [
  | none ↦ none
  | some rest ↦ let item = split_first ":" rest in if str_is_empty item then none else some item
]

module _ (runner : Runner) where
  unfoldable pub apply_discounts : CartProjection → M CartProjection
  apply_discounts cart = if is_empty cart.adjustment_codes then pure (undiscounted cart) else do
    granted ← call pricing λ n. runner.providers.resolve_discounts n cart cart.adjustment_codes
    pure (discounted cart granted)

  unfoldable pub check_geo : CartProjection → M Bool
  check_geo cart = do
    answer ← call geo λ n. runner.providers.geo_check n cart (geo_check_request cart)
    pure answer.allowed

  abbrev pub look_up_item : Option String → M (Unit {0})
  look_up_item none = pure tt
  look_up_item (some item_id) = do call catalog λ n. runner.providers.get_item n item_id; pure tt

  unfoldable pub validate_adjustment : String → M (Unit {0})
  validate_adjustment code = look_up_item (item_of_code code)

  unfoldable pub reprice_for_checkout : CartProjection → M CartProjection
  reprice_for_checkout cart = do
    priced ← call pricing λ n. runner.providers.resolve_prices n cart
    let cart' = with_prices cart priced
    taxed ← call tax λ n. runner.providers.resolve_tax n cart'
    apply_discounts (record cart' { tax_minor = taxed.total_tax_minor })

  unfoldable pub mutate_and_recalculate :
      CartId → CartProjection → CartStreamEvent → M CartProjection
  mutate_and_recalculate cart_id projection primary_event = do
    transition_cart cart_id item_changed
    append_cart_event cart_id primary_event
    priced ← call pricing λ n. runner.providers.resolve_prices n projection
    let p = with_prices projection priced
    transition_cart cart_id pricing_resolved
    append_cart_event cart_id repriced
    taxed ← call tax λ n. runner.providers.resolve_tax n p
    q ← apply_discounts (record p { tax_minor = taxed.total_tax_minor })
    transition_cart cart_id tax_resolved
    append_cart_event cart_id (retaxed taxed.total_tax_minor)
    allowed ← check_geo q
    let final : CartProjection = record q { geo_ok = allowed }
    transition_cart cart_id geo_validated
    append_cart_event cart_id (geo_checked allowed)
    put_cart_snapshot final
    pure final
