-- ===== src/Api/Facade.antt =====
-- crates/orchestrator-api/src/facade.rs: the cart commands of a tenant, the checkout with its
-- mandate, and the passage of the other calls to the runner. Metrics are left out, and a time is
-- taken only for them.
pub mod Calls
pub mod Tenants
pub mod Recordings
pub mod Mandates
use commerce_orchestrator_ap.Prelude.{
  ℕ, ◌+◌, String, Bool, true, false, not, Option, none, some, if◌then◌else◌, ◌||◌,
}
use commerce_orchestrator_ap.Prelude.Texts.{str_eq}
use commerce_orchestrator_ap.Core.Contract.{
  CartId, CartCommand, get_cart, start_checkout, cancel_cart, with_tenant, CartProjection,
  CheckoutRequest, TransactionResult,
}
use commerce_orchestrator_ap.Runtime.Result.{Result, ok, err, map_err}
use commerce_orchestrator_ap.Runtime.Monad
use commerce_orchestrator_ap.Runtime.Monad.{M, Stores, Runner}
use commerce_orchestrator_ap.Runtime.Runner.Events.{get_cart_snapshot}
use commerce_orchestrator_ap.Runtime.Runner.Carts
use commerce_orchestrator_ap.Runtime.Runner.Checkout
use commerce_orchestrator_ap.Runtime.Runner.Delivery
use commerce_orchestrator_ap.Api.Error.{
  AuthzError, tenant_mismatch, Ap2VerificationError, FacadeError, authz, ap2_verification,
}
use commerce_orchestrator_ap.Api.Authz.{AuthContext, authorize_checkout}
use commerce_orchestrator_ap.Api.Delegation.{DelegationProvider, IdentityProvider}
use commerce_orchestrator_ap.Api.Ap2.{
  Ap2Env, Ap2MandateRecord, refusal, verify_ap2_strict, extract_ap2_mandate_record,
}

-- `OrchestratorFacade`, with what its verification of mandates reads from outside.
pub record OrchestratorFacade : Type 0 where
  pub runner : Runner
  pub ap2_strict : Bool
  pub payment_delegation : Option DelegationProvider
  pub identity_link : Option IdentityProvider
  pub ap2_env : Ap2Env

abbrev pub F : Type 0 → Type 0
F A = Stores → Result FacadeError A × Stores

module _ {A : Type 0} where
  -- A call of the runner, `map_err(FacadeError::Runner)`.
  unfoldable pub lift : M A → F A
  lift m s = let (r, t) = m s in (map_err FacadeError.runner r, t)

  unfoldable pub give : A → F A
  give a s = (ok a, s)

  unfoldable pub refuse : FacadeError → F A
  refuse e s = (err e, s)

  -- A check outside the stores, which reads the clock twice at most.
  unfoldable pub check : (ℕ → Result Ap2VerificationError A) → F A
  check f s = (map_err ap2_verification (f s.moment), record s { moment = s.moment + 2 })

  -- `map_err(FacadeError::Ap2Verification)?`
  unfoldable pub or_refuse : Result Ap2VerificationError A → F A
  or_refuse r s = (map_err ap2_verification r, s)

module _ {A B : Type 0} where
  abbrev pub proceed : Result FacadeError A → (A → F B) → F B
  proceed (ok a) f s = f a s
  proceed (err e) f s = (err e, s)

  infixl 5 ◌>>=◌ ◌>>◌
  unfoldable pub ◌>>=◌ : F A → (A → F B) → F B
  ◌>>=◌ m f s = let (r, t) = m s in proceed r f t

  abbrev pub ◌>>◌ : F A → F B → F B
  m >> k = m >>= λ _. k

unfoldable pub cart_id_from_command : CartCommand → Option CartId
cart_id_from_command (get_cart payload) = some payload.cart_id
cart_id_from_command (start_checkout payload) = some payload.cart_id
cart_id_from_command (cancel_cart payload) = some payload.cart_id
cart_id_from_command _ = none

-- `cart.tenant_id.as_deref() == Some(tenant_id)`
abbrev pub is_owner : Option String → String → Bool
is_owner none tenant_id = false
is_owner (some owner) tenant_id = str_eq owner tenant_id

abbrev pub or_else : Option CartId → Option CartId → Option CartId
or_else none other = other
or_else (some id) other = some id

module _ (facade : OrchestratorFacade) where
  unfoldable pub dispatch_cart_command : CartCommand → Option CartId → F CartProjection
  dispatch_cart_command command cart_id =
      lift (Carts.dispatch_cart_command facade.runner command cart_id)

  abbrev pub owned_by : String → Option CartProjection → F (Unit {0})
  owned_by tenant_id none = give tt
  owned_by tenant_id (some cart) =
      if is_owner cart.tenant_id tenant_id then give tt else refuse (authz tenant_mismatch)

  unfoldable pub assert_cart_belongs_to : String → CartId → F (Unit {0})
  assert_cart_belongs_to tenant_id cart_id = do
    found ← lift (get_cart_snapshot cart_id)
    owned_by tenant_id found

  abbrev pub check_target : String → Option CartId → F (Unit {0})
  check_target tenant_id none = give tt
  check_target tenant_id (some target) = assert_cart_belongs_to tenant_id target

  unfoldable pub dispatch_cart_command_for_tenant :
      String → CartCommand → Option CartId → F CartProjection
  dispatch_cart_command_for_tenant tenant_id command cart_id = do
    let stamped = with_tenant command tenant_id
    check_target tenant_id (or_else cart_id (cart_id_from_command stamped))
    dispatch_cart_command stamped cart_id

  unfoldable pub accept_mandate : CheckoutRequest → F (Unit {0})
  accept_mandate request = do
    mandate ← or_refuse (extract_ap2_mandate_record facade.ap2_env request)
    accepted ← lift (Delivery.record_mandate facade.runner mandate.mandate_id mandate.expires_at)
    if accepted then give tt else refuse (ap2_verification (refusal "mandate replay detected"))

  -- The block `if self.ap2_strict`.
  unfoldable pub admit_mandate : CheckoutRequest → F (Unit {0})
  admit_mandate request = do
    check λ n. verify_ap2_strict facade.ap2_env n request
    accept_mandate request

  -- With the strict mode on, and off.
  unfoldable pub checkout_when : Bool → CheckoutRequest → F TransactionResult
  checkout_when true request = do
    admit_mandate request
    lift (Checkout.execute_checkout facade.runner request)
  checkout_when false request = lift (Checkout.execute_checkout facade.runner request)

  unfoldable pub execute_checkout : CheckoutRequest → F TransactionResult
  execute_checkout request = checkout_when facade.ap2_strict request

  abbrev authorized : Result AuthzError (Unit {0}) → CheckoutRequest → F TransactionResult
  authorized (err e) request = refuse (authz e)
  authorized (ok _) request = execute_checkout request

  unfoldable pub execute_checkout_authorized : AuthContext → CheckoutRequest → F TransactionResult
  execute_checkout_authorized context request =
      authorized (authorize_checkout context request) request
