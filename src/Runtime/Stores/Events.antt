-- ===== src/Runtime/Stores/Events.antt =====
-- crates/orchestrator-runtime/src/events.rs
use commerce_orchestrator_ap.Prelude.{ℕ, String, Option, Bool}
use commerce_orchestrator_ap.Prelude.Int.{ℤ}
use commerce_orchestrator_ap.Core.Fulfillment.{FulfillmentMethodType}

pub data CartStreamEvent : Type 0 where
  -- merchant_id, currency
  created : String → String → CartStreamEvent
  -- line_id, item_id, quantity
  item_added : String → String → ℕ → CartStreamEvent
  -- line_id, quantity
  item_qty_updated : String → ℕ → CartStreamEvent
  item_removed : String → CartStreamEvent
  adjustment_applied : String → CartStreamEvent
  -- method_type, selected_option_id, amount_minor
  fulfillment_selected : FulfillmentMethodType → Option String → ℤ → CartStreamEvent
  repriced : CartStreamEvent
  -- tax_minor
  retaxed : ℤ → CartStreamEvent
  -- allowed
  geo_checked : Bool → CartStreamEvent
  checkout_ready cancelled : CartStreamEvent
