-- ===== src/Runtime/Runner/Fulfillment.antt =====
-- The `SetFulfillmentSelection` arm of `dispatch_cart_command`
-- (crates/orchestrator-runtime/src/runner.rs).
pub mod Destination
use Prim.Native.String.{◌++◌}
use commerce_orchestrator_ap.Prelude.{
  String, Bool, false, not, Option, none, some, List, [], ◌∷◌, map, is_empty, any, all, find,
  retain, if◌then◌else◌,
}
use commerce_orchestrator_ap.Prelude.Lists
use commerce_orchestrator_ap.Prelude.Int.{ℤ, pos}
use commerce_orchestrator_ap.Prelude.Texts.{str_eq}
use commerce_orchestrator_ap.Core.Fulfillment.{
  FulfillmentMethodType, eq_method_type, FulfillmentOption, FulfillmentMethod, FulfillmentState,
  destination_id, default_options_for_method,
}
use commerce_orchestrator_ap.Core.Contract.{
  CartId, CartLineProjection, CartProjection, SetFulfillmentSelectionPayload, Uuid,
}
use commerce_orchestrator_ap.Runtime.Providers.{
  Quoter, FulfillmentQuoteRequest, FulfillmentError, rating_failed,
}
use commerce_orchestrator_ap.Runtime.Stores.Events.{fulfillment_selected}
use commerce_orchestrator_ap.Runtime.Monad.{
  M, Runner, RunnerError, ◌>>=◌, ◌>>◌, pure, ask, call, or_raise, raise_if, missing_cart_id,
  line_not_found, fulfillment_option_not_found, fulfillment_quote,
}
use commerce_orchestrator_ap.Runtime.Runner.Events.{
  append_cart_event, put_cart_snapshot, require_cart, next_version,
}
use commerce_orchestrator_ap.Runtime.Runner.Pricing.{apply_discounts, check_geo}

abbrev has_line : List CartLineProjection → String → Bool
has_line lines line_id = any (λ l. str_eq l.line_id line_id) lines

-- The lines that the selection covers: all of the cart's, or those named, each of which must exist.
unfoldable pub covered_lines :
    SetFulfillmentSelectionPayload → CartProjection → Option (List String)
covered_lines payload cart =
    if is_empty payload.line_item_ids
    then some (map (λ l. l.line_id) cart.lines)
    else if all (has_line cart.lines) payload.line_item_ids
    then some payload.line_item_ids
    else none

-- `e.to_string()`
abbrev pub quote_error : FulfillmentError → RunnerError
quote_error (rating_failed message) = fulfillment_quote ("fulfillment rating failed: " ++ message)

abbrev pub names_option : String → FulfillmentOption → Bool
names_option selected o = str_eq o.id selected

-- `Some(selected)` that no option has
abbrev pub unknown_option : Option String → List FulfillmentOption → Bool
unknown_option none options = false
unknown_option (some selected) options = not (any (names_option selected) options)

abbrev amount_of : Option FulfillmentOption → ℤ
amount_of none = pos 0
amount_of (some o) = o.amount_minor

-- The amount of the selected option, 0 without one.
abbrev pub selected_amount : Option String → List FulfillmentOption → ℤ
selected_amount none options = pos 0
selected_amount (some selected) options = amount_of (find (names_option selected) options)

abbrev or_default : Option FulfillmentState → FulfillmentState
or_default none = record { methods = [] }
or_default (some state) = state

-- The methods of another type stay, in front of the new one.
abbrev pub with_method :
    Option FulfillmentState → FulfillmentMethodType → FulfillmentMethod → FulfillmentState
with_method state kind method = record {
  methods =
      Lists.append
        (retain (λ m. not (eq_method_type m.method_type kind)) (or_default state).methods) method;
}

module _ (runner : Runner) where
  abbrev pub quote_from :
      Option Quoter → CartProjection → FulfillmentQuoteRequest → M (List FulfillmentOption)
  quote_from (some provider) cart request = call quote_error λ n. provider n cart request
  quote_from none cart request = pure (default_options_for_method request.method_type)

  -- The method that the selection stands for.
  abbrev pub selection :
      SetFulfillmentSelectionPayload
      → List String
      → List FulfillmentOption
      → Uuid
      → Uuid
      → FulfillmentMethod
  selection payload ids options group_uuid method_uuid = record {
    id = "fm_" ++ runner.world.uuid_text method_uuid;
    method_type = payload.method_type;
    line_item_ids = ids;
    destinations = payload.destination ∷ [];
    selected_destination_id = some (destination_id payload.destination);
    groups =
        (record {
          id = "fg_" ++ runner.world.uuid_text group_uuid;
          line_item_ids = ids;
          options = options;
          selected_option_id = payload.selected_option_id;
        })
        ∷ [];
  }

  unfoldable pub set_fulfillment_selection :
      Option CartId → SetFulfillmentSelectionPayload → M CartProjection
  set_fulfillment_selection cart_id payload = do
    id ← or_raise cart_id missing_cart_id
    projection ← require_cart id
    ids ← or_raise (covered_lines payload projection) line_not_found
    options ← quote_from runner.providers.fulfillment projection (record {
      method_type = payload.method_type;
      destination = payload.destination;
      line_item_ids = ids;
    })
    raise_if (unknown_option payload.selected_option_id options) fulfillment_option_not_found
    let amount = selected_amount payload.selected_option_id options
    group_uuid ← ask runner.world.new_v4
    method_uuid ← ask runner.world.new_v4
    let method = selection payload ids options group_uuid method_uuid
    p ← apply_discounts runner (record projection {
      fulfillment = some (with_method projection.fulfillment payload.method_type method);
      fulfillment_minor = amount;
    })
    allowed ← check_geo runner p
    let final : CartProjection = record p { geo_ok = allowed; version = next_version p.version }
    append_cart_event id
        (fulfillment_selected payload.method_type payload.selected_option_id amount)
    put_cart_snapshot final
    pure final
