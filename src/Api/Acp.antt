-- ===== src/Api/Acp.antt =====
-- crates/orchestrator-api/src/acp_mapping.rs: the sessions and carts of the Agentic Commerce
-- Protocol. The text of a `Uuid` and its parser are the uuid crate's.
pub mod Ids
use Prim.Native.String.{◌++◌}
use commerce_orchestrator_ap.Prelude.{
  ℕ, String, Bool, true, false, Option, none, some, List, [], ◌∷◌, map, if◌then◌else◌, ◌||◌,
}
use commerce_orchestrator_ap.Prelude.Int.{ℤ}
use commerce_orchestrator_ap.Prelude.Texts.{
  str_eq, trim, str_is_empty, strip_prefix, eq_ignore_ascii_case, concat,
}
use commerce_orchestrator_ap.Core.Contract.{
  Uuid, CartId, CartCommand, create_cart, add_item, get_cart, cancel_cart, start_checkout,
  CartProjection, CartLineProjection, CartStatus, checkout_ready, cancelled, CheckoutRequest,
  PaymentMethodType, ap2, mpp, CustomerHint,
}
use commerce_orchestrator_ap.Runtime.Result.{Result, ok, err, map_err}
use commerce_orchestrator_ap.Api.Delegation.{DelegatedPayment}

abbrev pub acp_api_version : String
acp_api_version = "2026-04-17"

pub data AcpVersionError : Type 0 where
  missing : AcpVersionError
  unsupported : String → AcpVersionError

-- `map(str::trim).filter(|v| !v.is_empty())`, then the one supported version.
abbrev pub negotiate_trimmed : String → Result AcpVersionError String
negotiate_trimmed v =
    if str_is_empty v
    then err missing
    else (if str_eq v acp_api_version then ok acp_api_version else err (unsupported v))

unfoldable pub negotiate_acp_version : Option String → Result AcpVersionError String
negotiate_acp_version none = err missing
negotiate_acp_version (some requested) = negotiate_trimmed (trim requested)

pub record AcpItemRef : Type 0 where
  pub id : String

pub record AcpLineItem : Type 0 where
  pub id : Option String
  pub item : AcpItemRef
  pub quantity : ℕ  -- u32

pub record AcpBuyer : Type 0 where
  pub email : Option String
  pub full_name : Option String

-- The request of a session and that of a cart have the same fields.
pub record AcpCreateRequest : Type 0 where
  pub merchant_id : String
  pub currency : String
  pub line_items : List AcpLineItem
  pub buyer : Option AcpBuyer

pub record AcpPaymentData : Type 0 where
  pub token : String
  pub amount_minor : ℤ
  pub payment_handler_id : Option String
  pub ap2_consent_proof : Option String
  pub payment_method_type : Option String
  pub mpp_method : Option String
  pub mpp_intent : Option String

pub record AcpCompleteSessionRequest : Type 0 where
  pub tenant_id : String
  pub merchant_id : String
  pub idempotency_key : String
  pub payment_data : AcpPaymentData
  pub buyer : Option AcpBuyer

pub record AcpSessionLine : Type 0 where
  pub id : String
  pub item_id : String
  pub quantity : ℕ  -- u32
  pub unit_amount : ℤ

pub record AcpTotals : Type 0 where
  pub subtotal_minor : ℤ
  pub tax_minor : ℤ
  pub discount_minor : ℤ
  pub total_minor : ℤ

-- The response of a session and that of a cart have the same fields.
pub record AcpResponse : Type 0 where
  pub id : String
  pub status : String
  pub currency : String
  pub line_items : List AcpSessionLine
  pub totals : AcpTotals
  pub api_version : String

-- The uuid crate: the text of an identifier, and its parser with the text of an error.
pub record UuidCrate : Type 0 where
  pub to_string : Uuid → String
  pub from_str : String → Result String Uuid

abbrev or_whole : Option String → String → String
or_whole none id = id
or_whole (some rest) id = rest

-- A cart's id as an id of the protocol, and back.
abbrev pub with_prefix : UuidCrate → String → CartId → String
with_prefix uuid prefix cart_id = prefix ++ uuid.to_string cart_id

abbrev pub parse_prefixed : UuidCrate → String → String → String → Result String CartId
parse_prefixed uuid prefix message id =
    map_err (λ e. message ++ e) (uuid.from_str (or_whole (strip_prefix prefix id) id))

module _ (uuid : UuidCrate) where
  unfoldable pub cart_id_to_acp_session_id : CartId → String
  cart_id_to_acp_session_id = with_prefix uuid "cs_"

  unfoldable pub parse_acp_session_id : String → Result String CartId
  parse_acp_session_id = parse_prefixed uuid "cs_" "invalid checkout session id: "

  unfoldable pub cart_id_to_acp_cart_id : CartId → String
  cart_id_to_acp_cart_id = with_prefix uuid "cart_"

  unfoldable pub parse_acp_cart_id : String → Result String CartId
  parse_acp_cart_id = parse_prefixed uuid "cart_" "invalid cart id: "

  abbrev session_line : CartLineProjection → AcpSessionLine
  session_line line = record {
    id = line.line_id;
    item_id = line.item_id;
    quantity = line.quantity;
    unit_amount = line.unit_price_minor;
  }

  abbrev response : String → String → CartProjection → AcpResponse
  response id label projection = record {
    id = id;
    status = label;
    currency = projection.currency;
    line_items = map session_line projection.lines;
    totals = record {
      subtotal_minor = projection.subtotal_minor;
      tax_minor = projection.tax_minor;
      discount_minor = projection.discount_minor;
      total_minor = projection.total_minor;
    };
    api_version = acp_api_version;
  }

  abbrev cart_label : CartStatus → String
  cart_label cancelled = "canceled"
  cart_label _ = "active"

  abbrev session_label : CartStatus → String
  session_label checkout_ready = "ready_for_payment"
  session_label cancelled = "canceled"
  session_label _ = "open"

  unfoldable pub projection_to_acp_cart : CartProjection → AcpResponse
  projection_to_acp_cart projection =
      response (cart_id_to_acp_cart_id projection.cart_id) (cart_label projection.status) projection

  unfoldable pub projection_to_acp_session : CartProjection → AcpResponse
  projection_to_acp_session projection =
      response (cart_id_to_acp_session_id projection.cart_id) (session_label projection.status)
        projection

-- `create_cart_command`, and `create_cart_command_for_acp_cart`
unfoldable pub create_cart_command : AcpCreateRequest → CartCommand
create_cart_command req =
    create_cart
      (record { merchant_id = req.merchant_id; currency = req.currency; tenant_id = none })

-- `add_item_commands`, and `add_item_commands_for_acp_cart`
unfoldable pub add_item_commands : AcpCreateRequest → List CartCommand
add_item_commands req =
    map (λ line. add_item (record { item_id = line.item.id; quantity = line.quantity }))
      req.line_items

unfoldable pub start_checkout_command : CartId → ℕ → CartCommand
start_checkout_command cart_id cart_version =
    start_checkout (record { cart_id = cart_id; cart_version = cart_version })

abbrev pub method_of : Option String → Option PaymentMethodType
method_of none = none
method_of (some m) =
    if eq_ignore_ascii_case m "ap2"
    then some ap2
    else (if eq_ignore_ascii_case m "mpp" then some mpp else none)

abbrev pub customer_of : Option AcpBuyer → Option CustomerHint
customer_of none = none
customer_of (some b) = some (record { email = b.email; full_name = b.full_name })

unfoldable pub complete_to_checkout_request :
    CartId → ℕ → String → AcpCompleteSessionRequest → CheckoutRequest
complete_to_checkout_request cart_id cart_version currency req = record {
  tenant_id = req.tenant_id;
  merchant_id = req.merchant_id;
  cart_id = cart_id;
  cart_version = cart_version;
  currency = currency;
  customer = customer_of req.buyer;
  location = none;
  payment_intent = record {
    amount_minor = req.payment_data.amount_minor;
    token_or_reference = req.payment_data.token;
    ap2_consent_proof = req.payment_data.ap2_consent_proof;
    payment_handler_id = req.payment_data.payment_handler_id;
    payment_method_type = method_of req.payment_data.payment_method_type;
    mpp_method = req.payment_data.mpp_method;
    mpp_intent = req.payment_data.mpp_intent;
  };
  idempotency_key = req.idempotency_key;
}

pub record AcpDelegatePaymentResponse : Type 0 where
  pub id : String
  pub status : String
  pub token : String
  pub expires_at : Option String
  pub api_version : String

unfoldable pub delegate_payment_response : DelegatedPayment → AcpDelegatePaymentResponse
delegate_payment_response delegated = record {
  id = delegated.id;
  status = delegated.status;
  token = delegated.token;
  expires_at = delegated.expires_at;
  api_version = acp_api_version;
}
