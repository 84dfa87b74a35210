-- ===== src/Examples/Samples.antt =====
-- A shop to run examples in: its providers answer the same at every moment.
use commerce_orchestrator_ap.Prelude.{ℕ, true, none, some, [], ◌∷◌, map}
use commerce_orchestrator_ap.Prelude.Int.{pos}
use commerce_orchestrator_ap.Core.Policy.{default_policy}
use commerce_orchestrator_ap.Core.Contract.{
  CartProjection, CartLineProjection, CartStatus, CheckoutRequest,
}
use commerce_orchestrator_ap.Core.StateMachine.Cart.{CartState}
use commerce_orchestrator_ap.Runtime.Result.{ok, err}
use commerce_orchestrator_ap.Runtime.Providers.{
  ProviderSet, World, LinePrice, tax_failed, unsupported,
}
use commerce_orchestrator_ap.Runtime.Stores.Effects.{OutboxMessage}
use commerce_orchestrator_ap.Runtime.Monad.{Stores, Runner}

abbrev pub price_of : CartLineProjection → LinePrice
price_of line = record {
  line_id = line.line_id;
  unit_price_minor = pos 1000;
  total_minor = pos 2000;
}

abbrev pub shop_providers : ProviderSet
shop_providers = record {
  get_item = λ n id. ok (record { id = id; title = "Mug"; price_minor = pos 1000 });
  resolve_prices = λ n cart. ok (map price_of cart.lines);
  resolve_discounts = λ n cart codes. ok [];
  resolve_tax = λ n cart. ok (record { total_tax_minor = pos 100 });
  geo_check = λ n cart request. ok (record { allowed = true });
  authorize = λ n request. ok (record { authorized = true; reference = "auth" });
  capture = λ n request. ok (record { success = true; reference = "cap" });
  void = λ n request. err (unsupported "void");
  refund = λ n request. err (unsupported "refund");
  get_payment_state = λ n id. none;
  generate = λ n cart result. ok (record { content = "receipt" });
  fulfillment = none;
}

abbrev pub shop_world : World
shop_world = record { new_v4 = λ n. n; uuid_text = λ u. "u"; instant = λ n. n; utc = λ n. n }

abbrev pub shop : Runner
shop = record {
  providers = shop_providers;
  policy = default_policy;
  outbox_deliverer = none;
  world = shop_world;
}

-- The shop while its tax service is down.
abbrev pub taxless_shop : Runner
taxless_shop = record shop {
  providers = record shop_providers { resolve_tax = λ n cart. err (tax_failed "down") };
}

-- The shop while its payment service is down.
abbrev pub unpaid_shop : Runner
unpaid_shop = record shop {
  providers = record shop_providers { authorize = λ n request. err (unsupported "down") };
}

abbrev pub two_mugs : CartLineProjection
two_mugs = record {
  line_id = "l1";
  item_id = "mug";
  title = "Mug";
  quantity = 2;
  unit_price_minor = pos 1000;
  total_minor = pos 2000;
}

abbrev pub mug_cart : CartProjection
mug_cart = record {
  cart_id = 7;
  version = 3;
  currency = "EUR";
  merchant_id = "m";
  tenant_id = some "t";
  lines = two_mugs ∷ [];
  subtotal_minor = pos 2000;
  tax_minor = pos 100;
  total_minor = pos 2100;
  geo_ok = true;
  status = CartStatus.checkout_ready;
  fulfillment = none;
  fulfillment_minor = pos 0;
  adjustment_codes = [];
  discounts = [];
  discount_minor = pos 0;
}

abbrev pub empty_stores : Stores
empty_stores = record {
  cart_events = [];
  cart_snapshots = [];
  cart_states = [];
  idempotency = [];
  commits = [];
  reservations = [];
  outbox = [];
  inbox = [];
  dead_letter = [];
  orders = [];
  payment_states = [];
  mandates = [];
  moment = 0;
  payments = [];
}

-- The stores of a shop with the one cart.
abbrev pub mug_stores : Stores
mug_stores = record empty_stores {
  cart_snapshots = (7, mug_cart) ∷ [];
  cart_states = (7, CartState.geo_checked) ∷ [];
}

-- A request to pay `amount` for the cart.
abbrev pub pay_for_mugs : ℕ → CheckoutRequest
pay_for_mugs amount = record {
  tenant_id = "t";
  merchant_id = "m";
  cart_id = 7;
  cart_version = 3;
  currency = "EUR";
  customer = none;
  location = none;
  payment_intent = record {
    amount_minor = pos amount;
    token_or_reference = "tok";
    ap2_consent_proof = none;
    payment_handler_id = none;
    payment_method_type = none;
    mpp_method = none;
    mpp_intent = none;
  };
  idempotency_key = "k";
}

abbrev pub hello : OutboxMessage
hello = record {
  id = "msg";
  topic = "order.created";
  payload = "ord";
  correlation_id = "c";
  attempts = 0;
  tenant_id = none;
}
