-- ===== src/Runtime/Runner/Payments.antt =====
-- The payment lifecycle and the reconciliation of crates/orchestrator-runtime/src/runner.rs
-- (capture_payment, void_payment, refund_payment, run_reconciliation).
pub mod Lifecycle
pub mod Reconciliation
use commerce_orchestrator_ap.Prelude.{
  ℕ, String, Bool, true, false, Option, none, some, List, [], ◌∷◌, if◌then◌else◌,
}
use commerce_orchestrator_ap.Prelude.Eq.{string_eq}
use commerce_orchestrator_ap.Prelude.Dict.{lookup, insert}
use commerce_orchestrator_ap.Core.Contract.{
  PaymentState, captured, voided, refunded, eq_payment_state, PaymentLifecycleRequest,
}
use commerce_orchestrator_ap.Runtime.Result.{Result}
use commerce_orchestrator_ap.Runtime.Providers.{PaymentError, PaymentOperationResult}
use commerce_orchestrator_ap.Runtime.Monad.{
  M, Runner, PaymentCall, capture, void, refund, ◌>>=◌, ◌>>◌, pure, pay, gets, ask,
}
use commerce_orchestrator_ap.Runtime.Runner.Checkout.{put_payment_state}

pub record PaymentMismatch : Type 0 where
  pub transaction_id : String
  pub our_state : PaymentState
  pub provider_state : Option PaymentState

pub record ReconciliationReport : Type 0 where
  pub mismatches : List PaymentMismatch

-- What the three operations share: the call, and a write of the new state where it succeeded.
unfoldable pub payment_operation :
    PaymentCall
    → (ℕ → Result PaymentError PaymentOperationResult)
    → PaymentLifecycleRequest
    → PaymentState
    → M PaymentOperationResult
unfolding ◌>>=◌ pure pay put_payment_state
payment_operation operation answer request state = do
  r ← pay operation answer
  if r.success then put_payment_state request.transaction_id state else pure tt
  pure r

-- One step of the loop of `run_reconciliation`.
abbrev pub compare_states :
    String → Option PaymentState → Option PaymentState → List PaymentMismatch → List PaymentMismatch
compare_states txn_id (some ours) (some theirs) rest =
    if eq_payment_state ours theirs
    then rest
    else (record { transaction_id = txn_id; our_state = ours; provider_state = some theirs }) ∷ rest
compare_states txn_id _ _ rest = rest

module _ (runner : Runner) where
  unfoldable pub capture_payment : PaymentLifecycleRequest → M PaymentOperationResult
  unfolding payment_operation
  capture_payment request =
      payment_operation (capture request) (λ n. runner.providers.capture n request) request captured

  unfoldable pub void_payment : PaymentLifecycleRequest → M PaymentOperationResult
  unfolding payment_operation
  void_payment request =
      payment_operation (void request) (λ n. runner.providers.void n request) request voided

  unfoldable pub refund_payment : PaymentLifecycleRequest → M PaymentOperationResult
  unfolding payment_operation
  refund_payment request =
      payment_operation (refund request) (λ n. runner.providers.refund n request) request refunded

  unfoldable pub mismatches : List String → M (List PaymentMismatch)
  unfolding ◌>>=◌ pure gets ask
  mismatches [] = pure []
  mismatches (txn_id ∷ rest) = do
    ours ← gets λ s. lookup txn_id s.payment_states
    theirs ← ask λ n. runner.providers.get_payment_state n txn_id
    others ← mismatches rest
    pure (compare_states txn_id ours theirs others)

  unfoldable pub run_reconciliation : List String → M ReconciliationReport
  unfolding mismatches
  run_reconciliation transaction_ids = do
    found ← mismatches transaction_ids
    pure (record { mismatches = found })
