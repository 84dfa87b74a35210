-- ===== src/Core/Validation.antt =====
-- crates/orchestrator-core/src/validation.rs. An `errors` vector with a row of tests that push into
-- it is `collect` of the tests and their messages, in the code's order.
pub mod Cart
pub mod Checkout
use Prim.Native.String.{len}
use commerce_orchestrator_ap.Prelude.{
  String, Bool, true, false, not, ◌&&◌, ◌||◌, ◌==◌, Option, none, some, List, [], ◌∷◌, ◌++◌,
  collect,
}
use commerce_orchestrator_ap.Prelude.Int.{ltb_ℤ, pos}
use commerce_orchestrator_ap.Prelude.Texts.{str_is_empty, is_blank}
use commerce_orchestrator_ap.Core.Fulfillment.{
  FulfillmentDestination, shipping_to, retail, destination_id,
}
use commerce_orchestrator_ap.Core.Contract.{
  CartCommand, create_cart, add_item, update_item_qty, remove_item, apply_adjustment, get_cart,
  start_checkout, cancel_cart, set_fulfillment_selection, CheckoutRequest, PaymentIntent,
  PaymentMethodType, mpp,
}

pub record ValidationResult : Type 0 where
  pub valid : Bool
  pub errors : List String

-- `if errors.is_empty() { ok() } else { invalid(errors) }`
abbrev pub result_of : List String → ValidationResult
result_of [] = record { valid = true; errors = [] }
result_of (e ∷ es) = record { valid = false; errors = e ∷ es }

abbrev bad_currency : String → Bool
bad_currency currency = str_is_empty currency || not (len currency == 3)

-- The name test of a retail destination.
abbrev blank_name : FulfillmentDestination → Bool
blank_name (shipping_to _ _) = false
blank_name (retail _ name _) = is_blank name

abbrev pub cart_checks : CartCommand → List (Bool × String)
cart_checks (create_cart p) =
    (str_is_empty p.merchant_id, "merchant_id required")
    ∷ (bad_currency p.currency, "currency must be 3-letter code")
    ∷ []
cart_checks (add_item p) =
    (str_is_empty p.item_id, "item_id required") ∷ (p.quantity == 0, "quantity must be > 0") ∷ []
cart_checks (update_item_qty p) = (str_is_empty p.line_id, "line_id required") ∷ []
cart_checks (remove_item p) = (str_is_empty p.line_id, "line_id required") ∷ []
cart_checks (get_cart p) = []
cart_checks (cancel_cart p) = []
cart_checks (start_checkout p) = (p.cart_version == 0, "cart_version must be > 0") ∷ []
cart_checks (apply_adjustment p) = (str_is_empty p.code, "adjustment code required") ∷ []
cart_checks (set_fulfillment_selection p) =
    (str_is_empty (destination_id p.destination), "fulfillment destination id required")
    ∷ (blank_name p.destination, "retail location name required")
    ∷ []

unfoldable pub validate_cart_command : CartCommand → ValidationResult
validate_cart_command cmd = result_of (collect (cart_checks cmd))

-- `o.as_ref().is_some_and(|s| s.is_empty())`
abbrev pub is_some_empty : Option String → Bool
is_some_empty none = false
is_some_empty (some s) = str_is_empty s

abbrev pub is_none : Option String → Bool
is_none none = true
is_none (some _) = false

abbrev pub is_mpp : Option PaymentMethodType → Bool
is_mpp (some mpp) = true
is_mpp _ = false

-- The tests of `validate_payment_intent`; the last three stand inside one `if`.
abbrev pub payment_checks : PaymentIntent → List (Bool × String)
payment_checks intent =
    (ltb_ℤ intent.amount_minor (pos 0), "payment amount must be >= 0")
    ∷ (str_is_empty intent.token_or_reference, "payment token_or_reference required")
    ∷ (is_some_empty intent.payment_handler_id, "payment_handler_id cannot be empty")
    ∷ (is_some_empty intent.mpp_method, "mpp_method cannot be empty")
    ∷ (is_some_empty intent.mpp_intent, "mpp_intent cannot be empty")
    ∷ (
      is_mpp intent.payment_method_type && is_none intent.mpp_method,
      "mpp_method required for payment_method_type=mpp",
    )
    ∷ (
      is_mpp intent.payment_method_type && is_none intent.mpp_intent,
      "mpp_intent required for payment_method_type=mpp",
    )
    ∷ (
      is_mpp intent.payment_method_type
          && (not (is_none intent.ap2_consent_proof) || not (is_none intent.payment_handler_id)),
      "ap2_consent_proof and payment_handler_id are not allowed for payment_method_type=mpp",
    )
    ∷ []

-- `validate_checkout_request` up to its call of `validate_payment_intent`
abbrev pub request_checks : CheckoutRequest → List (Bool × String)
request_checks req =
    (str_is_empty req.tenant_id, "tenant_id required")
    ∷ (str_is_empty req.merchant_id, "merchant_id required")
    ∷ (bad_currency req.currency, "currency must be 3-letter code")
    ∷ (req.cart_version == 0, "cart_version must be > 0")
    ∷ (str_is_empty req.idempotency_key, "idempotency_key required")
    ∷ []

unfoldable pub validate_checkout_request : CheckoutRequest → ValidationResult
validate_checkout_request req =
    result_of (collect (request_checks req ++ payment_checks req.payment_intent))
