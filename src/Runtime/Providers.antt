-- ===== src/Runtime/Providers.antt =====
-- crates/provider-contracts: what the runner sees of its providers. The services behind the traits
-- are parameters of the model. Each answer may depend on the moment of the call, which is the
-- number of outside calls made before it, so that a service may change its mind.
use commerce_orchestrator_ap.Prelude.{ℕ, String, Option, Bool, List}
use commerce_orchestrator_ap.Prelude.Int.{ℤ}
use commerce_orchestrator_ap.Core.Fulfillment.{
  FulfillmentMethodType, FulfillmentDestination, FulfillmentOption,
}
use commerce_orchestrator_ap.Core.Discount.{AppliedDiscount}
use commerce_orchestrator_ap.Core.Contract.{
  CartProjection, CheckoutRequest, PaymentLifecycleRequest, PaymentState, TransactionResult, Uuid,
  Timestamp,
}
use commerce_orchestrator_ap.Runtime.Result.{Result}

pub data CatalogError : Type 0 where
  not_found : String → CatalogError

pub data PricingError : Type 0 where
  pricing_failed : String → PricingError

pub data TaxError : Type 0 where
  tax_failed : String → TaxError

pub data GeoError : Type 0 where
  geo_failed : String → GeoError

pub data PaymentError : Type 0 where
  auth_failed : String → PaymentError
  unsupported : String → PaymentError

pub data ReceiptError : Type 0 where
  receipt_failed : String → ReceiptError

pub data FulfillmentError : Type 0 where
  rating_failed : String → FulfillmentError

pub record CatalogItem : Type 0 where
  pub id : String
  pub title : String
  pub price_minor : ℤ

pub record LinePrice : Type 0 where
  pub line_id : String
  pub unit_price_minor : ℤ
  pub total_minor : ℤ

pub record TaxResult : Type 0 where
  pub total_tax_minor : ℤ

pub record GeoCheckResult : Type 0 where
  pub allowed : Bool

pub record AuthResult : Type 0 where
  pub authorized : Bool
  pub reference : String

pub record PaymentOperationResult : Type 0 where
  pub success : Bool
  pub reference : String

pub record ReceiptPayload : Type 0 where
  pub content : String

pub record FulfillmentQuoteRequest : Type 0 where
  pub method_type : FulfillmentMethodType
  pub destination : FulfillmentDestination
  pub line_item_ids : List String

abbrev pub Quoter : Type 0
Quoter =
    ℕ → CartProjection → FulfillmentQuoteRequest → Result FulfillmentError (List FulfillmentOption)

pub record ProviderSet : Type 0 where
  pub get_item : ℕ → String → Result CatalogError CatalogItem
  pub resolve_prices : ℕ → CartProjection → Result PricingError (List LinePrice)
  pub resolve_discounts :
      ℕ → CartProjection → List String → Result PricingError (List AppliedDiscount)
  pub resolve_tax : ℕ → CartProjection → Result TaxError TaxResult
  pub geo_check : ℕ → CartProjection → CheckoutRequest → Result GeoError GeoCheckResult
  pub authorize : ℕ → CheckoutRequest → Result PaymentError AuthResult
  pub capture : ℕ → PaymentLifecycleRequest → Result PaymentError PaymentOperationResult
  pub void : ℕ → PaymentLifecycleRequest → Result PaymentError PaymentOperationResult
  pub refund : ℕ → PaymentLifecycleRequest → Result PaymentError PaymentOperationResult
  pub get_payment_state : ℕ → String → Option PaymentState
  pub generate : ℕ → CartProjection → TransactionResult → Result ReceiptError ReceiptPayload
  pub fulfillment : Option Quoter

-- The `uuid` crate and the clocks, at each moment: a fresh identifier, its text, the monotonic
-- clock in nanoseconds and the calendar clock in seconds.
pub record World : Type 0 where
  pub new_v4 : ℕ → Uuid
  pub uuid_text : Uuid → String
  pub instant : ℕ → ℕ
  pub utc : ℕ → Timestamp
