-- ===== src/Examples/Checkouts.antt =====
-- Checkouts of the sample cart.
use commerce_orchestrator_ap.Prelude.{◌≡◌, refl, true, none, some}
use commerce_orchestrator_ap.Prelude.Int.{pos, wrap64, add64, sub64, ◌+ℤ◌, ◌-ℤ◌}
use commerce_orchestrator_ap.Prelude.Dict.{lookup, insert}
use commerce_orchestrator_ap.Core.Contract.{TransactionResult, TransactionStatus, captured}
use commerce_orchestrator_ap.Core.Contract.Location.{location_hint}
use commerce_orchestrator_ap.Core.Validation.{validate_checkout_request}
use commerce_orchestrator_ap.Core.StateMachine.Checkout.{next_checkout_state, terminal_status}
use commerce_orchestrator_ap.Core.Policy.{check_checkout}
use commerce_orchestrator_ap.Runtime.Result.{Result, ok, err}
use commerce_orchestrator_ap.Runtime.Stores.Idempotency
use commerce_orchestrator_ap.Runtime.Stores.Idempotency.{IdempotencyKey, key_eq, in_flight}
use commerce_orchestrator_ap.Runtime.Stores.Inventory
use commerce_orchestrator_ap.Runtime.Stores.Effects
use commerce_orchestrator_ap.Runtime.Stores.Orders
use commerce_orchestrator_ap.Runtime.Monad.{
  payment, Stores, RunnerError, pure, raise, or_raise, ask, call, pay, ◌>>=◌, raise_if, on_error,
  for_each, already_in_flight, amount_mismatch,
}
use commerce_orchestrator_ap.Runtime.Monad.Post.{Post}
use commerce_orchestrator_ap.Runtime.Runner.Events.{
  put_cart_snapshot, get_cart_snapshot, require_cart,
}
use commerce_orchestrator_ap.Runtime.Runner.Pricing.{
  sum_lines, with_prices, reprice_for_checkout, check_geo, apply_discounts, geo_check_request,
}
use commerce_orchestrator_ap.Runtime.Runner.Checkout.{
  claim_key, enqueue, complete_key, set_reservations, put_payment_state, put_order, put_commit,
  commit_cart, reserve_line, place_order, conclude, charge, after_authorization, after_policy,
  run_machine, checkout_claimed, answer_claim, execute_checkout, settle_cart_for_checkout, key_of,
}
use commerce_orchestrator_ap.Runtime.Runner.Checkout.Replay.{retry_returns_same}
use commerce_orchestrator_ap.Runtime.Runner.Checkout.Charges.{Charges, execute_checkout-Charges}
use commerce_orchestrator_ap.Runtime.Runner.Checkout.Failure.{taken, failed_settlement_frees_key}
use commerce_orchestrator_ap.Runtime.Providers.{unsupported}
use commerce_orchestrator_ap.Runtime.Runner.Checkout.Stranded.{failed_payment_strands_key}
use commerce_orchestrator_ap.Examples.Samples.{
  unpaid_shop, mug_cart, shop, mug_stores, pay_for_mugs,
}

abbrev paid : Result RunnerError TransactionResult × Stores
paid = execute_checkout shop (pay_for_mugs 2100) mug_stores

abbrev mug_result : TransactionResult
mug_result = record {
  transaction_id = "txn_u";
  status = TransactionStatus.completed;
  totals_breakdown = record {
    subtotal_minor = pos 2000;
    tax_minor = pos 100;
    discount_minor = pos 0;
    fulfillment_minor = pos 0;
    total_minor = pos 2100;
  };
  payment_reference = some "auth";
  receipt_payload = some "receipt";
  correlation_id = 11;
  audit_trail_id = none;
  payment_state = captured;
  order_id = some "ord_u";
}

paid_run : paid ≡ (ok mug_result, paid.1)
unfolding execute_checkout claim_key Idempotency.claim answer_claim checkout_claimed
    settle_cart_for_checkout require_cart get_cart_snapshot lookup insert raise_if on_error or_raise
    raise pure ask call pay ◌>>=◌ for_each reprice_for_checkout with_prices sum_lines wrap64 add64
    sub64 ◌+ℤ◌ ◌-ℤ◌ apply_discounts check_geo geo_check_request location_hint put_cart_snapshot
    reserve_line set_reservations Inventory.reserve run_machine next_checkout_state terminal_status
    check_checkout after_policy after_authorization charge commit_cart put_commit place_order
    put_order Orders.put conclude Inventory.finalize_cart enqueue Effects.enqueue complete_key
    Idempotency.complete put_payment_state validate_checkout_request
paid_run = refl

retry_returns_same_example :
    execute_checkout shop (pay_for_mugs 2100) paid.1 ≡ (ok mug_result, paid.1)
retry_returns_same_example =
    retry_returns_same shop (pay_for_mugs 2100) mug_stores paid.1 mug_result paid_run

execute_checkout-Charges_example : Charges (pay_for_mugs 2100) mug_stores paid.1
execute_checkout-Charges_example = execute_checkout-Charges shop (pay_for_mugs 2100) mug_stores

right_is_valid : (validate_checkout_request (pay_for_mugs 2100)).valid ≡ true
unfolding validate_checkout_request
right_is_valid = refl

wrong_is_valid : (validate_checkout_request (pay_for_mugs 1)).valid ≡ true
unfolding validate_checkout_request
wrong_is_valid = refl

free_key : lookup (key_of (pay_for_mugs 1)) mug_stores.idempotency ≡ none
unfolding lookup
free_key = refl

wrong_amount :
    (settle_cart_for_checkout shop (pay_for_mugs 1) (taken (pay_for_mugs 1) mug_stores)).0
    ≡ err (amount_mismatch (pos 2100) (pos 1))
unfolding execute_checkout claim_key Idempotency.claim answer_claim checkout_claimed
    settle_cart_for_checkout require_cart get_cart_snapshot lookup insert raise_if on_error or_raise
    raise pure ask call pay ◌>>=◌ for_each reprice_for_checkout with_prices sum_lines wrap64 add64
    sub64 ◌+ℤ◌ ◌-ℤ◌ apply_discounts check_geo geo_check_request location_hint put_cart_snapshot
    reserve_line set_reservations Inventory.reserve run_machine next_checkout_state terminal_status
    check_checkout after_policy after_authorization charge commit_cart put_commit place_order
    put_order Orders.put conclude Inventory.finalize_cart enqueue Effects.enqueue complete_key
    Idempotency.complete put_payment_state validate_checkout_request
wrong_amount = refl

failed_settlement_frees_key_example :
    let (r, t) = execute_checkout shop (pay_for_mugs 1) mug_stores in
    (r ≡ err (amount_mismatch (pos 2100) (pos 1)))
    × (lookup (key_of (pay_for_mugs 1)) t.idempotency ≡ none)
    × (t.payments ≡ mug_stores.payments)
    × (t.orders ≡ mug_stores.orders)
failed_settlement_frees_key_example =
    failed_settlement_frees_key shop (pay_for_mugs 1) mug_stores
      (amount_mismatch (pos 2100) (pos 1)) wrong_is_valid free_key wrong_amount

abbrev unpaid : Result RunnerError TransactionResult × Stores
unpaid = execute_checkout unpaid_shop (pay_for_mugs 2100) mug_stores

unpaid_run : unpaid ≡ (err (payment (unsupported "down")), unpaid.1)
unfolding execute_checkout claim_key Idempotency.claim answer_claim checkout_claimed
    settle_cart_for_checkout require_cart get_cart_snapshot lookup insert raise_if on_error or_raise
    raise pure ask call pay ◌>>=◌ for_each reprice_for_checkout with_prices sum_lines wrap64 add64
    sub64 ◌+ℤ◌ ◌-ℤ◌ apply_discounts check_geo geo_check_request location_hint put_cart_snapshot
    reserve_line set_reservations Inventory.reserve run_machine next_checkout_state terminal_status
    check_checkout after_policy after_authorization charge commit_cart put_commit place_order
    put_order Orders.put conclude Inventory.finalize_cart enqueue Effects.enqueue complete_key
    Idempotency.complete put_payment_state validate_checkout_request
unpaid_run = refl

unpaid_settles :
    (settle_cart_for_checkout unpaid_shop
      (pay_for_mugs 2100)
      (taken (pay_for_mugs 2100) mug_stores)).0
    ≡ ok mug_cart
unfolding execute_checkout claim_key Idempotency.claim answer_claim checkout_claimed
    settle_cart_for_checkout require_cart get_cart_snapshot lookup insert raise_if on_error or_raise
    raise pure ask call pay ◌>>=◌ for_each reprice_for_checkout with_prices sum_lines wrap64 add64
    sub64 ◌+ℤ◌ ◌-ℤ◌ apply_discounts check_geo geo_check_request location_hint put_cart_snapshot
    reserve_line set_reservations Inventory.reserve run_machine next_checkout_state terminal_status
    check_checkout after_policy after_authorization charge commit_cart put_commit place_order
    put_order Orders.put conclude Inventory.finalize_cart enqueue Effects.enqueue complete_key
    Idempotency.complete put_payment_state validate_checkout_request
unpaid_settles = refl

right_key_free : lookup (key_of (pay_for_mugs 2100)) mug_stores.idempotency ≡ none
unfolding lookup
right_key_free = refl

failed_payment_strands_key_example :
    execute_checkout unpaid_shop (pay_for_mugs 2100) unpaid.1 ≡ (err already_in_flight, unpaid.1)
failed_payment_strands_key_example =
    failed_payment_strands_key unpaid_shop (pay_for_mugs 2100) mug_stores unpaid.1 mug_cart
      (payment (unsupported "down")) right_is_valid right_key_free unpaid_settles unpaid_run
