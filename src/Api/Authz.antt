-- ===== src/Api/Authz.antt =====
-- crates/orchestrator-api/src/authz.rs
use commerce_orchestrator_ap.Prelude.{String, List, not, any, if◌then◌else◌}
use commerce_orchestrator_ap.Prelude.Texts.{str_eq}
use commerce_orchestrator_ap.Core.Contract.{CheckoutRequest}
use commerce_orchestrator_ap.Runtime.Result.{Result, ok, err}
use commerce_orchestrator_ap.Api.Error.{AuthzError, missing_scope, tenant_mismatch}

pub record AuthContext : Type 0 where
  pub caller_id : String
  pub tenant_id : String
  pub scopes : List String

unfoldable pub authorize_checkout : AuthContext → CheckoutRequest → Result AuthzError (Unit {0})
authorize_checkout context request =
    if not (any (λ scope. str_eq scope "checkout:execute") context.scopes)
    then err (missing_scope "checkout:execute")
    else (if not (str_eq context.tenant_id request.tenant_id) then err tenant_mismatch else ok tt)
