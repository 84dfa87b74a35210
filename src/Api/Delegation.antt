-- ===== src/Api/Delegation.antt =====
-- crates/provider-contracts/src/delegation.rs
use commerce_orchestrator_ap.Prelude.{ℕ, String, Option, List}
use commerce_orchestrator_ap.Prelude.Int.{ℤ}
use commerce_orchestrator_ap.Runtime.Result.{Result}

pub record PaymentDelegationRequest : Type 0 where
  pub tenant_id : String
  pub token : String
  pub method_type : Option String
  pub max_amount_minor : Option ℤ
  pub idempotency_key : String
  pub metadata : List (String × String)

pub record DelegatedPayment : Type 0 where
  pub id : String
  pub token : String
  pub status : String
  pub expires_at : Option String

-- The provider's `IdentityLinkRequest`, which has no user reference.
pub record ProviderIdentityLinkRequest : Type 0 where
  pub tenant_id : String
  pub merchant_id : String
  pub agent_id : String
  pub link_token : String

pub record IdentityLinkRecord : Type 0 where
  pub link_id : String
  pub status : String
  pub expires_at : Option String

-- The two services, each with the text of its error; an answer may depend on the moment.
abbrev pub DelegationProvider : Type 0
DelegationProvider = ℕ → PaymentDelegationRequest → Result String DelegatedPayment

abbrev pub IdentityProvider : Type 0
IdentityProvider = ℕ → ProviderIdentityLinkRequest → Result String IdentityLinkRecord
