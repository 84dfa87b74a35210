-- ===== src/Api/Facade/Calls.antt =====
-- The calls of crates/orchestrator-api/src/facade.rs that go on to the runner, and the two that go
-- to a provider of the facade's own.
use commerce_orchestrator_ap.Prelude.{
  ℕ, ◌+◌, String, Bool, Option, none, some, List, [], ◌∷◌, ◌||◌, if◌then◌else◌,
}
use commerce_orchestrator_ap.Prelude.Texts.{is_blank}
use commerce_orchestrator_ap.Core.Contract.{
  CartCommand, create_cart, add_item, update_item_qty, remove_item, apply_adjustment, get_cart,
  start_checkout, cancel_cart, PaymentLifecycleRequest, TransactionResult, TransactionStatus,
}
use commerce_orchestrator_ap.Runtime.Result.{Result, map_err}
use commerce_orchestrator_ap.Runtime.Providers.{PaymentOperationResult}
use commerce_orchestrator_ap.Runtime.Runner.Delivery
use commerce_orchestrator_ap.Runtime.Runner.Payments
use commerce_orchestrator_ap.Runtime.Runner.Payments.{ReconciliationReport}
use commerce_orchestrator_ap.Api.Error.{FacadeError, not_configured}
use commerce_orchestrator_ap.Api.Delegation.{
  PaymentDelegationRequest, DelegatedPayment, IdentityLinkRecord, DelegationProvider,
  IdentityProvider,
}
use commerce_orchestrator_ap.Api.Facade.{OrchestratorFacade, F, lift, give, refuse, ◌>>=◌}

pub record IdentityLinkRequest : Type 0 where
  pub tenant_id : String
  pub merchant_id : String
  pub agent_id : String
  pub link_token : String
  pub user_reference : Option String

pub record IdentityLinkResult : Type 0 where
  pub ucp_version : String
  pub supported_versions : List String
  pub link_id : String
  pub status : String

-- A call of one of them.
unfoldable pub consult : {A : Type 0} → (String → FacadeError) → (ℕ → Result String A) → F A
consult wrap f s = (map_err wrap (f s.moment), record s { moment = s.moment + 1 })

abbrev pub incomplete : IdentityLinkRequest → Bool
incomplete request =
    is_blank request.tenant_id
    || is_blank request.merchant_id
    || is_blank request.agent_id
    || is_blank request.link_token

abbrev pub linked : IdentityLinkRecord → IdentityLinkResult
linked r = record {
  ucp_version = "2026-08-25";
  supported_versions = "2026-08-25" ∷ "2026-04-08" ∷ "2026-01-23" ∷ "2026-01-11" ∷ [];
  link_id = r.link_id;
  status = r.status;
}

abbrev link_through : Option IdentityProvider → IdentityLinkRequest → F IdentityLinkResult
link_through none request = refuse (not_configured "identity linking (set IDENTITY_LINK_BASE_URL)")
link_through (some link) request = do
  r ← consult FacadeError.identity_link λ n. link n (record {
    tenant_id = request.tenant_id;
    merchant_id = request.merchant_id;
    agent_id = request.agent_id;
    link_token = request.link_token;
  })
  give (linked r)

abbrev delegate_through : Option DelegationProvider → PaymentDelegationRequest → F DelegatedPayment
delegate_through none request =
    refuse (not_configured "payment delegation (set PAYMENT_DELEGATION_BASE_URL)")
delegate_through (some delegate) request =
    consult FacadeError.payment_delegation λ n. delegate n request

module _ (facade : OrchestratorFacade) where
  unfoldable pub link_identity : IdentityLinkRequest → F IdentityLinkResult
  link_identity request =
      if incomplete request
      then refuse (
          FacadeError.identity_link "tenant_id, merchant_id, agent_id, and link_token are required")
      else link_through facade.identity_link request

  unfoldable pub delegate_payment : PaymentDelegationRequest → F DelegatedPayment
  delegate_payment request = delegate_through facade.payment_delegation request

  unfoldable pub capture_payment : PaymentLifecycleRequest → F PaymentOperationResult
  capture_payment request = lift (Payments.capture_payment facade.runner request)

  unfoldable pub void_payment : PaymentLifecycleRequest → F PaymentOperationResult
  void_payment request = lift (Payments.void_payment facade.runner request)

  unfoldable pub refund_payment : PaymentLifecycleRequest → F PaymentOperationResult
  refund_payment request = lift (Payments.refund_payment facade.runner request)

  unfoldable pub run_reconciliation : List String → F ReconciliationReport
  run_reconciliation transaction_ids =
      lift (Payments.run_reconciliation facade.runner transaction_ids)

  -- `process_outbox_once`, which drops what the runner reports
  unfoldable pub process_outbox_once : ℕ → F (Unit {0})
  process_outbox_once max_attempts = do
    outcome ← lift (Delivery.process_outbox_once_reporting facade.runner max_attempts)
    give tt

  unfoldable pub replay_from_dead_letter : String → F Bool
  replay_from_dead_letter message_id =
      lift (Delivery.replay_from_dead_letter facade.runner message_id)

  unfoldable pub accept_incoming_event_once : String → F Bool
  accept_incoming_event_once message_id =
      lift (Delivery.accept_incoming_event_once facade.runner message_id)

unfoldable pub cart_command_operation : CartCommand → String
cart_command_operation (create_cart _) = "cart_create"
cart_command_operation (add_item _) = "cart_add_item"
cart_command_operation (update_item_qty _) = "cart_update_qty"
cart_command_operation (remove_item _) = "cart_remove_item"
cart_command_operation (apply_adjustment _) = "cart_apply_adjustment"
cart_command_operation (get_cart _) = "cart_get"
cart_command_operation (start_checkout _) = "cart_start_checkout"
cart_command_operation (cancel_cart _) = "cart_cancel"
cart_command_operation (CartCommand.set_fulfillment_selection _) = "cart_set_fulfillment"

unfoldable pub checkout_status_label : TransactionResult → String
checkout_status_label result = elim (result.status) [
  | TransactionStatus.completed ↦ "completed"
  | TransactionStatus.rejected ↦ "rejected"
  | TransactionStatus.auth_failed ↦ "auth_failed"
  | TransactionStatus.commit_failed ↦ "commit_failed"
  | TransactionStatus.timed_out ↦ "timed_out"
]
