-- ===== src/Core/Validation/Checkout.antt =====
-- When validate_checkout_request of crates/orchestrator-core/src/validation.rs accepts a request.
use Prim.Native.String.{len}
use mathlib.Core.Option.{some-injective}
use commerce_orchestrator_ap.Prelude.{
  String, ◌≡◌, refl, subst, ◌≢◌, ◌↔◌, true, false, not, ◌&&◌, ◌||◌, Option, none, some, ◌++◌, arith,
  collect, collect-eq-nil, All, ◌<◌,
}
use commerce_orchestrator_ap.Prelude.Int.{ℤ, pos, ◌≤ℤ◌, ltb_ℤ}
use commerce_orchestrator_ap.Prelude.Texts.{str_is_empty_iff}
use commerce_orchestrator_ap.Core.Contract.{
  CheckoutRequest, PaymentIntent, PaymentMethodType, ap2, mpp,
}
use commerce_orchestrator_ap.Core.Validation.{
  request_checks, payment_checks, is_some_empty, is_none, is_mpp, validate_checkout_request,
}
use commerce_orchestrator_ap.Core.Validation.Cart.{valid-result_of, bad_currency_iff, positive_iff}

-- An optional text that is not empty where it is given.
abbrev pub FilledIfGiven : Option String → Type 0
FilledIfGiven o = (s : String) → o ≡ some s → s ≢ ""

-- What a machine payment must carry and must not; nothing is asked of the other kinds.
abbrev pub MppFields : PaymentIntent → Type 0
MppFields intent =
    intent.payment_method_type ≡ some mpp
    → (intent.mpp_method ≢ none)
      × (intent.mpp_intent ≢ none)
      × (intent.ap2_consent_proof ≡ none)
      × (intent.payment_handler_id ≡ none)

pub record IsPayable (intent : PaymentIntent) : Type 0 where
  pub not_negative : pos 0 ≤ℤ intent.amount_minor
  pub referenced : intent.token_or_reference ≢ ""
  pub handler : FilledIfGiven intent.payment_handler_id
  pub method : FilledIfGiven intent.mpp_method
  pub purpose : FilledIfGiven intent.mpp_intent
  pub machine : MppFields intent

pub record IsComplete (req : CheckoutRequest) : Type 0 where
  pub tenant : req.tenant_id ≢ ""
  pub merchant : req.merchant_id ≢ ""
  pub currency_code : len req.currency ≡ 3
  pub versioned : 0 < req.cart_version
  pub keyed : req.idempotency_key ≢ ""
  pub payable : IsPayable req.payment_intent

filled_iff : (o : Option String) → (is_some_empty o ≡ false) ↔ FilledIfGiven o
filled_iff none = (λ h s e. cc, λ h. refl)
filled_iff (some t) = (
  λ h s e. subst (λ u. u ≢ "") (some-injective _ _ e) ((str_is_empty_iff t).0 h),
  λ h. (str_is_empty_iff t).1 (h t refl),
)

not_negative_iff : (z : ℤ) → (ltb_ℤ z (pos 0) ≡ false) ↔ (pos 0 ≤ℤ z)
not_negative_iff z = (λ h. ground arith, λ h. ground arith)

is_none_iff : (o : Option String) → (is_none o ≡ true) ↔ (o ≡ none)
is_none_iff none = (λ h. refl, λ h. refl)
is_none_iff (some s) = (λ h. cc, λ h. cc)

is_some_iff : (o : Option String) → (is_none o ≡ false) ↔ (o ≢ none)
is_some_iff none = (λ h. cc, λ h. absurd (h refl))
is_some_iff (some s) = (λ h e. cc, λ h. refl)

-- The three tests inside the `if` of a machine payment.
machine_iff :
    (kind : Option PaymentMethodType) (method purpose proof handler : Option String)
    → ((is_mpp kind && is_none method ≡ false)
        × (is_mpp kind && is_none purpose ≡ false)
        × (is_mpp kind && (not (is_none proof) || not (is_none handler)) ≡ false))
      ↔ (kind ≡ some mpp → (method ≢ none) × (purpose ≢ none) × (proof ≡ none) × (handler ≡ none))
machine_iff (some mpp) method purpose proof handler = (
  λ h _. (
    (is_some_iff method).0 h.0,
    (is_some_iff purpose).0 h.1,
    (is_none_iff proof).0 (ground arith),
    (is_none_iff handler).0 (ground arith),
  ),
  λ h.
      let (m, p, a, b) = h refl in ((is_some_iff method).1 m, (is_some_iff purpose).1 p, rw (a, b)),
)
machine_iff (some ap2) method purpose proof handler = (λ h e. cc, λ h. (refl, refl, refl))
machine_iff none method purpose proof handler = (λ h e. cc, λ h. (refl, refl, refl))

payment_iff :
    (intent : PaymentIntent) → All (λ c. c.0 ≡ false) (payment_checks intent) ↔ IsPayable intent
payment_iff intent =
    let machine =
      machine_iff intent.payment_method_type intent.mpp_method intent.mpp_intent
        intent.ap2_consent_proof intent.payment_handler_id in
    (
      λ (a, (b, (c, (d, (e, (f, (g, (h, _)))))))). record {
        not_negative = (not_negative_iff _).0 a;
        referenced = (str_is_empty_iff _).0 b;
        handler = (filled_iff _).0 c;
        method = (filled_iff _).0 d;
        purpose = (filled_iff _).0 e;
        machine = machine.0 (f, g, h);
      },
      λ p.
          let (f, g, h) = machine.1 p.machine in
          (
            (not_negative_iff _).1 p.not_negative,
            (
              (str_is_empty_iff _).1 p.referenced,
              (
                (filled_iff _).1 p.handler,
                ((filled_iff _).1 p.method, ((filled_iff _).1 p.purpose, (f, (g, (h, tt))))),
              ),
            ),
          ),
    )

-- A checkout request is valid exactly if it is complete: tenant, merchant and idempotency key are
-- given, the currency has three bytes, the cart version is positive, and the payment intent is
-- payable (no negative amount, a reference, no optional field that is given but empty, and the
-- fields of a machine payment exactly as its kind demands).
pub validate_checkout_request_iff :
    (req : CheckoutRequest) → ((validate_checkout_request req).valid ≡ true) ↔ IsComplete req
unfolding validate_checkout_request
validate_checkout_request_iff req =
    let errors = collect (request_checks req ++ payment_checks req.payment_intent) in
    let tests = collect-eq-nil (request_checks req ++ payment_checks req.payment_intent) in
    (
      λ v.
          let h = tests.0 ((valid-result_of errors).0 v) in
          record {
            tenant = (str_is_empty_iff _).0 h.0;
            merchant = (str_is_empty_iff _).0 (h.1.0);
            currency_code = (bad_currency_iff _).0 (h.1.1.0);
            versioned = (positive_iff _).0 (h.1.1.1.0);
            keyed = (str_is_empty_iff _).0 (h.1.1.1.1.0);
            payable = (payment_iff req.payment_intent).0 (h.1.1.1.1.1);
          },
      λ c. (valid-result_of errors).1 (
          tests.1 (
            (str_is_empty_iff _).1 c.tenant,
            (
              (str_is_empty_iff _).1 c.merchant,
              (
                (bad_currency_iff _).1 c.currency_code,
                (
                  (positive_iff _).1 c.versioned,
                  ((str_is_empty_iff _).1 c.keyed, (payment_iff req.payment_intent).1 c.payable),
                ),
              ),
            ),
          )),
    )
