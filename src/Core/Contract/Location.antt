-- ===== src/Core/Contract/Location.antt =====
-- CartProjection::location_hint of crates/orchestrator-core/src/contract.rs.
use commerce_orchestrator_ap.Prelude.{
  String, ◌≡◌, Bool, true, false, ◌&&◌, Option, none, some, List, [], ◌∷◌, if◌then◌else◌, find,
}
use commerce_orchestrator_ap.Prelude.Texts.{str_eq}
use commerce_orchestrator_ap.Core.Fulfillment.{
  PostalAddress, FulfillmentDestination, shipping_to, retail, destination_id, FulfillmentMethod,
  FulfillmentState,
}
use commerce_orchestrator_ap.Core.Contract.{LocationHint, CartProjection}

-- `Some(d.id()) == selected`
abbrev pub is_selected : Option String → FulfillmentDestination → Bool
is_selected none d = false
is_selected (some id) d = str_eq (destination_id d) id

abbrev pub first : List FulfillmentDestination → Option FulfillmentDestination
first [] = none
first (d ∷ _) = some d

abbrev or_else :
    Option FulfillmentDestination → Option FulfillmentDestination → Option FulfillmentDestination
or_else (some d) _ = some d
or_else none other = other

-- The selected destination of a method, or else its first one.
abbrev pub destination_of : FulfillmentMethod → Option FulfillmentDestination
destination_of m =
    or_else (find (is_selected m.selected_destination_id) m.destinations) (first m.destinations)

abbrev pub address_of : Option FulfillmentDestination → Option PostalAddress
address_of none = none
address_of (some (shipping_to _ address)) = some address
address_of (some (retail _ _ address)) = address

abbrev is_absent : Option String → Bool
is_absent none = true
is_absent (some _) = false

-- An address with neither country nor region nor postal code gives no hint.
abbrev pub hint_of : Option PostalAddress → Option LocationHint
hint_of none = none
hint_of (some a) =
    if is_absent a.address_country && is_absent a.address_region && is_absent a.postal_code
    then none
    else some (record {
      country_code = a.address_country;
      region = a.address_region;
      postal_code = a.postal_code;
      intent = none;
    })

abbrev pub locate : FulfillmentMethod → Option LocationHint
locate m = hint_of (address_of (destination_of m))

-- `methods.iter().find_map(..)`
pub find_location : List FulfillmentMethod → Option LocationHint
find_location [] = none
find_location (m ∷ ms) = elim (locate m) [ some hint ↦ some hint | none ↦ find_location ms ]

abbrev methods_of : Option FulfillmentState → List FulfillmentMethod
methods_of none = []
methods_of (some state) = state.methods

unfoldable pub location_hint : CartProjection → Option LocationHint
unfolding find_location
location_hint cart = find_location (methods_of cart.fulfillment)

-- The first method decides, where it gives a location.
pub location_hint-first :
    (cart : CartProjection) (m : FulfillmentMethod) (rest : List FulfillmentMethod)
    {hint : LocationHint}
    → cart.fulfillment ≡ some (record { methods = m ∷ rest })
    → locate m ≡ some hint
    → location_hint cart ≡ some hint
unfolding location_hint
location_hint-first cart m rest e l = rw (e, methods_of) (rw (l, find_location))
