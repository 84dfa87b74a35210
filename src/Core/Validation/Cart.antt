-- ===== src/Core/Validation/Cart.antt =====
-- When validate_cart_command of crates/orchestrator-core/src/validation.rs accepts a command.
use Prim.Native.String.{len}
use Prim.Native.String.len
use commerce_orchestrator_ap.Prelude.{
  String, ℕ, ◌≡◌, refl, ◌≢◌, ◌↔◌, true, false, List, [], ◌∷◌, arith, collect, collect-eq-nil, All,
  ◌==◌, ◌<◌,
}
use commerce_orchestrator_ap.Prelude.Texts.{str_is_empty_iff, is_blank}
use commerce_orchestrator_ap.Core.Fulfillment.{
  FulfillmentDestination, shipping_to, retail, destination_id,
}
use commerce_orchestrator_ap.Core.Contract.{
  CartCommand, create_cart, add_item, update_item_qty, remove_item, apply_adjustment, get_cart,
  start_checkout, cancel_cart, set_fulfillment_selection,
}
use commerce_orchestrator_ap.Core.Validation.{
  result_of, cart_checks, bad_currency, blank_name, validate_cart_command,
}

abbrev pub NamesItsStore : FulfillmentDestination → Type 0
NamesItsStore (shipping_to _ _) = Unit
NamesItsStore (retail _ name _) = is_blank name ≡ false

-- What each command must carry.
abbrev pub IsAcceptable : CartCommand → Type 0
IsAcceptable (create_cart p) = (p.merchant_id ≢ "") × (len p.currency ≡ 3)
IsAcceptable (add_item p) = (p.item_id ≢ "") × (0 < p.quantity)
IsAcceptable (update_item_qty p) = p.line_id ≢ ""
IsAcceptable (remove_item p) = p.line_id ≢ ""
IsAcceptable (apply_adjustment p) = p.code ≢ ""
IsAcceptable (get_cart p) = Unit
IsAcceptable (start_checkout p) = 0 < p.cart_version
IsAcceptable (cancel_cart p) = Unit
IsAcceptable (set_fulfillment_selection p) =
    (destination_id p.destination ≢ "") × NamesItsStore p.destination

pub valid-result_of : (errors : List String) → ((result_of errors).valid ≡ true) ↔ (errors ≡ [])
valid-result_of [] = (λ h. refl, λ h. refl)
valid-result_of (e ∷ es) = (λ h. cc, λ h. cc)

pub bad_currency_iff : (c : String) → (bad_currency c ≡ false) ↔ (len c ≡ 3)
bad_currency_iff String.[] = (λ h. cc, λ h. absurd (omega (arith, len.nil)))
bad_currency_iff (String.◌∷◌ c s) = (λ h. ground arith, λ h. ground arith)

pub positive_iff : (n : ℕ) → ((n == 0) ≡ false) ↔ (0 < n)
positive_iff n = (λ h. ground arith, λ h. ground arith)

blank_name_iff : (d : FulfillmentDestination) → (blank_name d ≡ false) ↔ NamesItsStore d
blank_name_iff (shipping_to _ _) = (λ h. tt, λ h. refl)
blank_name_iff (retail _ name _) = (λ h. h, λ h. h)

checks_iff : (cmd : CartCommand) → All (λ c. c.0 ≡ false) (cart_checks cmd) ↔ IsAcceptable cmd
checks_iff (create_cart p) = (
  λ h. ((str_is_empty_iff _).0 h.0, (bad_currency_iff _).0 h.1.0),
  λ h. ((str_is_empty_iff _).1 h.0, ((bad_currency_iff _).1 h.1, tt)),
)
checks_iff (add_item p) = (
  λ h. ((str_is_empty_iff _).0 h.0, (positive_iff _).0 h.1.0),
  λ h. ((str_is_empty_iff _).1 h.0, ((positive_iff _).1 h.1, tt)),
)
checks_iff (update_item_qty p) =
    (λ h. (str_is_empty_iff _).0 h.0, λ h. ((str_is_empty_iff _).1 h, tt))
checks_iff (remove_item p) = (λ h. (str_is_empty_iff _).0 h.0, λ h. ((str_is_empty_iff _).1 h, tt))
checks_iff (apply_adjustment p) =
    (λ h. (str_is_empty_iff _).0 h.0, λ h. ((str_is_empty_iff _).1 h, tt))
checks_iff (get_cart p) = (λ h. tt, λ h. tt)
checks_iff (start_checkout p) = (λ h. (positive_iff _).0 h.0, λ h. ((positive_iff _).1 h, tt))
checks_iff (cancel_cart p) = (λ h. tt, λ h. tt)
checks_iff (set_fulfillment_selection p) = (
  λ h. ((str_is_empty_iff _).0 h.0, (blank_name_iff _).0 h.1.0),
  λ h. ((str_is_empty_iff _).1 h.0, ((blank_name_iff _).1 h.1, tt)),
)

-- A cart command is valid exactly if it is acceptable: the identifiers it needs are not empty, a
-- currency has three bytes, an added quantity and a cart version are positive, and a retail
-- destination has a name that is not blank.
pub validate_cart_command_iff :
    (cmd : CartCommand) → ((validate_cart_command cmd).valid ≡ true) ↔ IsAcceptable cmd
unfolding validate_cart_command
validate_cart_command_iff cmd =
    let valid = valid-result_of (collect (cart_checks cmd)) in
    let tests = collect-eq-nil (cart_checks cmd) in
    (λ h. (checks_iff cmd).0 (tests.0 (valid.0 h)), λ h. valid.1 (tests.1 ((checks_iff cmd).1 h)))
