-- ===== src/Api/Error.antt =====
-- The errors of crates/orchestrator-api/src (authz.rs, ap2_verification.rs, facade.rs).
use commerce_orchestrator_ap.Prelude.{String}
use commerce_orchestrator_ap.Runtime.Monad.{RunnerError}

pub data AuthzError : Type 0 where
  missing_scope : String → AuthzError
  tenant_mismatch : AuthzError

pub data Ap2VerificationError : Type 0 where
  verification_failed : String → Ap2VerificationError

pub data FacadeError : Type 0 where
  runner : RunnerError → FacadeError
  authz : AuthzError → FacadeError
  ap2_verification : Ap2VerificationError → FacadeError
  identity_link payment_delegation not_configured : String → FacadeError
