-- ===== src/Core/Fulfillment.antt =====
-- crates/orchestrator-core/src/fulfillment.rs
use commerce_orchestrator_ap.Prelude.{String, Option, none, some, List, [], ◌∷◌, Bool, true, false}
use commerce_orchestrator_ap.Prelude.Int.{ℤ, pos}

pub data FulfillmentMethodType : Type 0 where
  shipping pickup : FulfillmentMethodType

-- The derived `==`.
abbrev pub eq_method_type : FulfillmentMethodType → FulfillmentMethodType → Bool
eq_method_type shipping shipping = true
eq_method_type pickup pickup = true
eq_method_type _ _ = false

pub record PostalAddress : Type 0 where
  pub extended_address : Option String
  pub street_address : Option String
  pub address_locality : Option String
  pub address_region : Option String
  pub address_country : Option String
  pub postal_code : Option String
  pub first_name : Option String
  pub last_name : Option String
  pub phone_number : Option String

pub data FulfillmentDestination : Type 0 where
  shipping_to : String → PostalAddress → FulfillmentDestination
  -- id, name, address
  retail : String → String → Option PostalAddress → FulfillmentDestination

-- `FulfillmentDestination::id`
abbrev pub destination_id : FulfillmentDestination → String
destination_id (shipping_to id _) = id
destination_id (retail id _ _) = id

pub record FulfillmentOption : Type 0 where
  pub id : String
  pub title : String
  pub description : Option String
  pub carrier : Option String
  pub earliest_fulfillment_time : Option String
  pub latest_fulfillment_time : Option String
  pub amount_minor : ℤ

pub record FulfillmentGroup : Type 0 where
  pub id : String
  pub line_item_ids : List String
  pub options : List FulfillmentOption
  pub selected_option_id : Option String

pub record FulfillmentMethod : Type 0 where
  pub id : String
  pub method_type : FulfillmentMethodType
  pub line_item_ids : List String
  pub destinations : List FulfillmentDestination
  pub selected_destination_id : Option String
  pub groups : List FulfillmentGroup

pub record FulfillmentState : Type 0 where
  pub methods : List FulfillmentMethod

abbrev quote : String → String → String → ℤ → FulfillmentOption
quote id title description amount = record {
  id = id;
  title = title;
  description = some description;
  carrier = none;
  earliest_fulfillment_time = none;
  latest_fulfillment_time = none;
  amount_minor = amount;
}

unfoldable pub default_options_for_method : FulfillmentMethodType → List FulfillmentOption
default_options_for_method shipping =
    quote "standard" "Standard Shipping" "Arrives in 5-8 business days" (pos 500)
    ∷ quote "express" "Express Shipping" "Arrives in 2-3 business days" (pos 1000)
    ∷ []
default_options_for_method pickup =
    quote "in_store" "In-Store Pickup" "Ready for pickup today" (pos 0) ∷ []
