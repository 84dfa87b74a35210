-- ===== src/Examples/Destinations.antt =====
-- A cart that is picked up at a shop, and a shipment abroad.
use commerce_orchestrator_ap.Prelude.{String, ◌≡◌, refl, none, some, [], ◌∷◌}
use commerce_orchestrator_ap.Prelude.Dict.{lookup}
use commerce_orchestrator_ap.Prelude.Eq.{nat_eq}
use commerce_orchestrator_ap.Core.Contract.{
  CartProjection, LocationHint, SetFulfillmentSelectionPayload,
}
use commerce_orchestrator_ap.Core.Contract.Location.{location_hint}
use commerce_orchestrator_ap.Core.Fulfillment.{
  FulfillmentMethod, PostalAddress, shipping_to, retail, shipping, pickup,
}
use commerce_orchestrator_ap.Runtime.Monad.{Stores}
use commerce_orchestrator_ap.Runtime.Monad.Post.{Post}
use commerce_orchestrator_ap.Runtime.Runner.Fulfillment.{set_fulfillment_selection}
use commerce_orchestrator_ap.Runtime.Runner.Fulfillment.Destination.{selection_keeps_location}
use commerce_orchestrator_ap.Examples.Samples.{shop, mug_cart, mug_stores}

abbrev address_in : String → PostalAddress
address_in country = record {
  extended_address = none;
  street_address = none;
  address_locality = none;
  address_region = none;
  address_country = some country;
  postal_code = none;
  first_name = none;
  last_name = none;
  phone_number = none;
}

abbrev at_shop : FulfillmentMethod
at_shop = record {
  id = "m1";
  method_type = pickup;
  line_item_ids = "l1" ∷ [];
  destinations = retail "r1" "Shop" (some (address_in "DE")) ∷ [];
  selected_destination_id = some "r1";
  groups = [];
}

abbrev abroad : FulfillmentMethod
abroad = record {
  id = "m2";
  method_type = shipping;
  line_item_ids = "l2" ∷ [];
  destinations = shipping_to "d1" (address_in "XX") ∷ [];
  selected_destination_id = some "d1";
  groups = [];
}

abbrev both_ways : CartProjection
both_ways = record mug_cart { fulfillment = some (record { methods = at_shop ∷ abroad ∷ [] }) }

abbrev in_germany : LocationHint
in_germany = record { country_code = some "DE"; region = none; postal_code = none; intent = none }

-- The second method's destination plays no part.
both_ways_hint : location_hint both_ways ≡ some in_germany
unfolding location_hint
both_ways_hint = refl

abbrev picked_up : CartProjection
picked_up = record mug_cart { fulfillment = some (record { methods = at_shop ∷ [] }) }

abbrev picked_up_stores : Stores
picked_up_stores = record mug_stores { cart_snapshots = (7, picked_up) ∷ [] }

abbrev ship_abroad : SetFulfillmentSelectionPayload
ship_abroad = record {
  method_type = shipping;
  destination = shipping_to "d1" (address_in "XX");
  line_item_ids = [];
  selected_option_id = none;
}

picked_up_found : lookup 7 picked_up_stores.cart_snapshots ≡ some picked_up
unfolding lookup
picked_up_found = refl

selection_keeps_location_example :
    Post
      (λ returned _. location_hint returned ≡ some in_germany)
      (λ _ _. Unit)
      (set_fulfillment_selection shop (some 7) ship_abroad picked_up_stores)
selection_keeps_location_example =
    selection_keeps_location shop 7 ship_abroad picked_up_stores picked_up at_shop [] in_germany
      picked_up_found refl refl refl
