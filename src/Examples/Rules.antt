-- ===== src/Examples/Rules.antt =====
-- The rules of the core on single inputs.
use commerce_orchestrator_ap.Prelude.{◌≡◌, ◌↔◌, refl, true, none, some, [], ◌∷◌, min}
use commerce_orchestrator_ap.Prelude.Int.{pos, i64_max, pos_part}
use commerce_orchestrator_ap.Core.Contract.{create_cart, CartCommand}
use commerce_orchestrator_ap.Core.Discount.{AppliedDiscount, total_discount_minor}
use commerce_orchestrator_ap.Core.Discount.Bounds.{sum_granted, total_discount_minor_exact}
use commerce_orchestrator_ap.Core.Policy.{PolicyEngine, allowed, check_checkout}
use commerce_orchestrator_ap.Core.Policy.Verdict.{MeetsPolicy, check_checkout-allowed_iff}
use commerce_orchestrator_ap.Core.StateMachine.Cart.{run_cart, cancelled}
use commerce_orchestrator_ap.Core.StateMachine.Checkout.{CheckoutState, run_checkout}
use commerce_orchestrator_ap.Core.StateMachine.Checkout.Traces.{
  happy_path, completed_iff_happy_path,
}
use commerce_orchestrator_ap.Core.Validation.{validate_cart_command, validate_checkout_request}
use commerce_orchestrator_ap.Core.Validation.Cart.{IsAcceptable, validate_cart_command_iff}
use commerce_orchestrator_ap.Core.Validation.Checkout.{IsComplete, validate_checkout_request_iff}
use commerce_orchestrator_ap.Examples.Samples.{pay_for_mugs}

abbrev strict : PolicyEngine
strict = record {
  max_total_minor = some (pos 5000);
  blocked_country_codes = "XX" ∷ [];
  require_payment_reference = true;
}

check_checkout-allowed_iff_example :
    (check_checkout strict (pay_for_mugs 2100) (pos 2100) ≡ allowed)
    ↔ MeetsPolicy strict (pay_for_mugs 2100) (pos 2100)
check_checkout-allowed_iff_example =
    check_checkout-allowed_iff strict (pay_for_mugs 2100) (pos 2100)

validate_checkout_request_iff_example :
    ((validate_checkout_request (pay_for_mugs 2100)).valid ≡ true) ↔ IsComplete (pay_for_mugs 2100)
validate_checkout_request_iff_example = validate_checkout_request_iff (pay_for_mugs 2100)

abbrev opening : CartCommand
opening = create_cart (record { merchant_id = "m"; currency = "EUR"; tenant_id = none })

validate_cart_command_iff_example :
    ((validate_cart_command opening).valid ≡ true) ↔ IsAcceptable opening
validate_cart_command_iff_example = validate_cart_command_iff opening

completed_iff_happy_path_example :
    (run_checkout CheckoutState.received happy_path ≡ some CheckoutState.completed)
    ↔ (happy_path ≡ happy_path)
completed_iff_happy_path_example = completed_iff_happy_path happy_path

cancelled_stays : run_cart cancelled [] ≡ some cancelled
unfolding run_cart
cancelled_stays = refl

abbrev five_off : AppliedDiscount
five_off = record { code = "FIVE"; description = none; amount_minor = pos 500; line_id = none }

total_discount_minor_exact_example :
    total_discount_minor (five_off ∷ []) (pos 2100)
    ≡ pos (min (min (sum_granted (five_off ∷ [])) i64_max) (pos_part (pos 2100)))
total_discount_minor_exact_example = total_discount_minor_exact (five_off ∷ []) (pos 2100)
