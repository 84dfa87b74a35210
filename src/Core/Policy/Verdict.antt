-- ===== src/Core/Policy/Verdict.antt =====
-- When PolicyEngine::check_checkout of crates/orchestrator-core/src/policy.rs allows a checkout.
use mathlib.Core.Option.{some-injective}
use commerce_orchestrator_ap.Prelude.{
  String, ◌&&◌, ◌≡◌, refl, any-eq-false, ◌≢◌, ◌↔◌, Bool, true, false, Option, none, some, List, [],
  ◌∷◌, arith, All, collect, collect-eq-nil, subst,
}
use commerce_orchestrator_ap.Prelude.Int.{ℤ, ◌≤ℤ◌}
use commerce_orchestrator_ap.Prelude.Texts.{str_is_empty, str_is_empty_iff, eq_ignore_ascii_case}
use commerce_orchestrator_ap.Core.Contract.{CheckoutRequest}
use commerce_orchestrator_ap.Core.Policy.{
  PolicyEngine, allowed, exceeds, country_of, is_blocked, verdict, checkout_checks, check_checkout,
}

-- What the policy asks of a checkout, without reference to how it is tested.
pub record MeetsPolicy (policy : PolicyEngine) (req : CheckoutRequest) (total : ℤ) : Type 0 where
  pub within_max : (max : ℤ) → policy.max_total_minor ≡ some max → total ≤ℤ max
  pub country_open :
      (country : String)
      → country_of req.location ≡ some country
      → All (λ b. eq_ignore_ascii_case b country ≡ false) policy.blocked_country_codes
  pub reference_given :
      policy.require_payment_reference ≡ true → req.payment_intent.token_or_reference ≢ ""

verdict-eq-allowed : (errors : List String) → (verdict errors ≡ allowed) ↔ (errors ≡ [])
verdict-eq-allowed [] = (λ h. cc, λ h. cc)
verdict-eq-allowed (e ∷ es) = (λ h. cc, λ h. cc)

pub exceeds_iff :
    (limit : Option ℤ) (total : ℤ)
    → (exceeds limit total ≡ false) ↔ ((max : ℤ) → limit ≡ some max → total ≤ℤ max)
exceeds_iff none total = (λ h max e. cc, λ h. refl)
exceeds_iff (some limit) total = (
  λ h max e. subst (λ m. total ≤ℤ m) (some-injective _ _ e) (ground arith),
  λ h. ground (arith, h limit refl),
)

is_blocked_iff :
    (blocked : List String) (found : Option String)
    → (is_blocked blocked found ≡ false) ↔ (
        (country : String)
        → found ≡ some country
        → All (λ b. eq_ignore_ascii_case b country ≡ false) blocked)
is_blocked_iff blocked none = (λ h country e. cc, λ h. refl)
is_blocked_iff blocked (some c) = (
  λ h country e.
      subst (λ k. All (λ b. eq_ignore_ascii_case b k ≡ false) blocked) (some-injective _ _ e)
        ((any-eq-false _ blocked).0 h),
  λ h. (any-eq-false _ blocked).1 (h c refl),
)

reference_iff :
    (required : Bool) (reference : String)
    → (required && str_is_empty reference ≡ false) ↔ (required ≡ true → reference ≢ "")
reference_iff true reference =
    (λ h _. (str_is_empty_iff reference).0 h, λ h. (str_is_empty_iff reference).1 (h refl))
reference_iff false reference = (λ h e. cc, λ h. refl)

-- A checkout is allowed exactly if it meets the policy: its total does not exceed the maximum
-- (where one is set), its country (where it has one) is none of the blocked ones up to the case of
-- ASCII letters, and it has a payment reference wherever the policy wants one.
pub check_checkout-allowed_iff :
    (policy : PolicyEngine) (req : CheckoutRequest) (total : ℤ)
    → (check_checkout policy req total ≡ allowed) ↔ MeetsPolicy policy req total
unfolding check_checkout
check_checkout-allowed_iff policy req total =
    let tests = collect-eq-nil (checkout_checks policy req total) in
    let allowed_iff = verdict-eq-allowed (collect (checkout_checks policy req total)) in
    let max_iff = exceeds_iff policy.max_total_minor total in
    let country_iff = is_blocked_iff policy.blocked_country_codes (country_of req.location) in
    let given_iff =
      reference_iff policy.require_payment_reference req.payment_intent.token_or_reference in
    (
      λ h.
          let passed = tests.0 (allowed_iff.0 h) in
          record {
            within_max = max_iff.0 passed.0;
            country_open = country_iff.0 (passed.1.0);
            reference_given = given_iff.0 (passed.1.1.0);
          },
      λ m. allowed_iff.1 (
          tests.1 (
            max_iff.1 m.within_max,
            (country_iff.1 m.country_open, (given_iff.1 m.reference_given, tt)),
          )),
    )
