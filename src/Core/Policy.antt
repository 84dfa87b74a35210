-- ===== src/Core/Policy.antt =====
-- crates/orchestrator-core/src/policy.rs
pub mod Verdict
use Prim.Native.String.{◌++◌}
use commerce_orchestrator_ap.Prelude.{
  String, Bool, true, false, ◌&&◌, Option, none, some, List, [], ◌∷◌, any, collect, if◌then◌else◌,
}
use commerce_orchestrator_ap.Prelude.Int.{ℤ, ltb_ℤ}
use commerce_orchestrator_ap.Prelude.Texts.{eq_ignore_ascii_case, show_i64, str_is_empty}
use commerce_orchestrator_ap.Core.Contract.{CheckoutRequest, LocationHint}

pub record PolicyEngine : Type 0 where
  pub max_total_minor : Option ℤ
  pub blocked_country_codes : List String
  pub require_payment_reference : Bool

-- `PolicyEngine::default`
abbrev pub default_policy : PolicyEngine
default_policy = record {
  max_total_minor = none;
  blocked_country_codes = [];
  require_payment_reference = true;
}

pub data PolicyCheckResult : Type 0 where
  allowed : PolicyCheckResult
  rejected : List String → PolicyCheckResult

-- The first test of `check_checkout`.
abbrev pub exceeds : Option ℤ → ℤ → Bool
exceeds none _ = false
exceeds (some max) total = ltb_ℤ max total

abbrev exceeds_message : Option ℤ → ℤ → String
exceeds_message none _ = ""
exceeds_message (some max) total =
    "total " ++ (show_i64 total ++ (" exceeds max allowed " ++ show_i64 max))

abbrev pub country_of : Option LocationHint → Option String
country_of none = none
country_of (some location) = location.country_code

-- The second test.
abbrev pub is_blocked : List String → Option String → Bool
is_blocked blocked none = false
is_blocked blocked (some country) = any (λ b. eq_ignore_ascii_case b country) blocked

abbrev blocked_message : Option String → String
blocked_message none = ""
blocked_message (some country) = "country " ++ (country ++ " is not allowed")

abbrev verdict : List String → PolicyCheckResult
verdict [] = allowed
verdict (e ∷ es) = rejected (e ∷ es)

abbrev pub checkout_checks : PolicyEngine → CheckoutRequest → ℤ → List (Bool × String)
checkout_checks policy req total =
    (exceeds policy.max_total_minor total, exceeds_message policy.max_total_minor total)
    ∷ (
      is_blocked policy.blocked_country_codes (country_of req.location),
      blocked_message (country_of req.location),
    )
    ∷ (
      policy.require_payment_reference && str_is_empty req.payment_intent.token_or_reference,
      "payment token or reference required",
    )
    ∷ []

unfoldable pub check_checkout : PolicyEngine → CheckoutRequest → ℤ → PolicyCheckResult
check_checkout policy req total = verdict (collect (checkout_checks policy req total))
