-- ===== src/Core/Contract.antt =====
-- crates/orchestrator-core/src/contract.rs. A `Uuid` is its 128-bit number, a time is a number of
-- seconds, an `i64` is an integer and an unsigned integer is a natural number.
pub mod Location
use commerce_orchestrator_ap.Prelude.{ℕ, String, Option, none, some, List, [], ◌∷◌, Bool, ◌==◌}
use commerce_orchestrator_ap.Prelude.Int.{ℤ}
use commerce_orchestrator_ap.Core.Fulfillment.{
  FulfillmentMethodType, FulfillmentDestination, FulfillmentState,
}
use commerce_orchestrator_ap.Core.Discount.{AppliedDiscount}

abbrev pub Uuid : Type 0
Uuid = ℕ

abbrev pub CartId : Type 0
CartId = Uuid

abbrev pub Timestamp : Type 0
Timestamp = ℕ

pub record CreateCartPayload : Type 0 where
  pub merchant_id : String
  pub currency : String
  pub tenant_id : Option String

pub record AddItemPayload : Type 0 where
  pub item_id : String
  pub quantity : ℕ  -- u32

pub record UpdateItemQtyPayload : Type 0 where
  pub line_id : String
  pub quantity : ℕ  -- u32

pub record RemoveItemPayload : Type 0 where
  pub line_id : String

pub record ApplyAdjustmentPayload : Type 0 where
  pub code : String

pub record GetCartPayload : Type 0 where
  pub cart_id : CartId

pub record StartCheckoutPayload : Type 0 where
  pub cart_id : CartId
  pub cart_version : ℕ  -- u64

pub record CancelCartPayload : Type 0 where
  pub cart_id : CartId

pub record SetFulfillmentSelectionPayload : Type 0 where
  pub method_type : FulfillmentMethodType
  pub line_item_ids : List String
  pub destination : FulfillmentDestination
  pub selected_option_id : Option String

pub data CartCommand : Type 0 where
  create_cart : CreateCartPayload → CartCommand
  add_item : AddItemPayload → CartCommand
  update_item_qty : UpdateItemQtyPayload → CartCommand
  remove_item : RemoveItemPayload → CartCommand
  apply_adjustment : ApplyAdjustmentPayload → CartCommand
  get_cart : GetCartPayload → CartCommand
  start_checkout : StartCheckoutPayload → CartCommand
  cancel_cart : CancelCartPayload → CartCommand
  set_fulfillment_selection : SetFulfillmentSelectionPayload → CartCommand

-- `CartCommand::with_tenant`
unfoldable pub with_tenant : CartCommand → String → CartCommand
with_tenant (create_cart payload) tenant = create_cart (record payload { tenant_id = some tenant })
with_tenant command _ = command

pub record CustomerHint : Type 0 where
  pub email : Option String
  pub full_name : Option String

pub record LocationHint : Type 0 where
  pub country_code : Option String
  pub region : Option String
  pub postal_code : Option String
  pub intent : Option String

pub data PaymentMethodType : Type 0 where
  ap2 mpp : PaymentMethodType

pub record PaymentIntent : Type 0 where
  pub amount_minor : ℤ
  pub token_or_reference : String
  pub ap2_consent_proof : Option String
  pub payment_handler_id : Option String
  pub payment_method_type : Option PaymentMethodType
  pub mpp_method : Option String
  pub mpp_intent : Option String

pub record CheckoutRequest : Type 0 where
  pub tenant_id : String
  pub merchant_id : String
  pub cart_id : CartId
  pub cart_version : ℕ  -- u64
  pub currency : String
  pub customer : Option CustomerHint
  pub location : Option LocationHint
  pub payment_intent : PaymentIntent
  pub idempotency_key : String

pub record CartLineProjection : Type 0 where
  pub line_id : String
  pub item_id : String
  pub title : String
  pub quantity : ℕ  -- u32
  pub unit_price_minor : ℤ
  pub total_minor : ℤ

pub data CartStatus : Type 0 where
  draft checkout_ready cancelled : CartStatus

pub record CartProjection : Type 0 where
  pub cart_id : CartId
  pub version : ℕ  -- u64
  pub currency : String
  pub merchant_id : String
  pub tenant_id : Option String
  pub lines : List CartLineProjection
  pub subtotal_minor : ℤ
  pub tax_minor : ℤ
  pub total_minor : ℤ
  pub geo_ok : Bool
  pub status : CartStatus
  pub fulfillment : Option FulfillmentState
  pub fulfillment_minor : ℤ
  pub adjustment_codes : List String
  pub discounts : List AppliedDiscount
  pub discount_minor : ℤ

pub data TransactionStatus : Type 0 where
  completed rejected auth_failed commit_failed timed_out : TransactionStatus

pub data PaymentState : Type 0 where
  authorized captured voided refund_pending refunded reconciled failed : PaymentState

abbrev pub payment_state_code : PaymentState → ℕ
payment_state_code authorized = 0
payment_state_code captured = 1
payment_state_code voided = 2
payment_state_code refund_pending = 3
payment_state_code refunded = 4
payment_state_code reconciled = 5
payment_state_code failed = 6

-- The derived `==`, which compares the discriminants.
abbrev pub eq_payment_state : PaymentState → PaymentState → Bool
eq_payment_state a b = payment_state_code a == payment_state_code b

pub record TotalsBreakdown : Type 0 where
  pub subtotal_minor : ℤ
  pub tax_minor : ℤ
  pub discount_minor : ℤ
  pub fulfillment_minor : ℤ
  pub total_minor : ℤ

pub record TransactionResult : Type 0 where
  pub transaction_id : String
  pub status : TransactionStatus
  pub totals_breakdown : TotalsBreakdown
  pub payment_reference : Option String
  pub receipt_payload : Option String
  pub correlation_id : Uuid
  pub audit_trail_id : Option String
  pub payment_state : PaymentState
  pub order_id : Option String

pub record PaymentLifecycleRequest : Type 0 where
  pub tenant_id : String
  pub merchant_id : String
  pub transaction_id : String
  pub amount_minor : ℤ
  pub idempotency_key : String

pub data OrderStatus : Type 0 where
  created fulfillment_pending fulfilled order_cancelled : OrderStatus

pub record OrderEvent : Type 0 where
  pub id : String
  pub event_type : String
  pub description : String
  pub occurred_at : Timestamp

pub record OrderAdjustment : Type 0 where
  pub id : String
  pub adjustment_type : String
  pub amount_minor : ℤ
  pub status : String

pub record OrderRecord : Type 0 where
  pub order_id : String
  pub tenant_id : String
  pub transaction_id : String
  pub checkout_id : CartId
  pub status : OrderStatus
  pub currency : String
  pub permalink_url : String
  pub line_items : List CartLineProjection
  pub totals : TotalsBreakdown
  pub events : List OrderEvent
  pub adjustments : List OrderAdjustment
  pub created_at : Timestamp
