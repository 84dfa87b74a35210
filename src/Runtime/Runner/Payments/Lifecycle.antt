-- ===== src/Runtime/Runner/Payments/Lifecycle.antt =====
-- What a later payment operation leaves (capture_payment, void_payment and refund_payment of
-- crates/orchestrator-runtime/src/runner.rs).
use commerce_orchestrator_ap.Prelude.{
  ℕ, ◌+◌, ◌≡◌, refl, String, Bool, true, false, ◌&&◌, Option, some, [], ◌∷◌, ◌++◌, if◌then◌else◌,
}
use commerce_orchestrator_ap.Prelude.Eq.{string_eq}
use commerce_orchestrator_ap.Prelude.Texts.{str_eq}
use commerce_orchestrator_ap.Prelude.Dict.{lookup, lookup-insert}
use commerce_orchestrator_ap.Core.Contract.{
  PaymentState, captured, voided, refunded, PaymentLifecycleRequest,
}
use commerce_orchestrator_ap.Runtime.Result.{Result, ok, err, map_err}
use commerce_orchestrator_ap.Runtime.Providers.{PaymentError, PaymentOperationResult}
use commerce_orchestrator_ap.Runtime.Monad.{
  Stores, Runner, RunnerError, PaymentCall, capture, void, refund, ◌>>=◌, pure, pay, payment,
}
use commerce_orchestrator_ap.Runtime.Runner.Checkout.{put_payment_state}
use commerce_orchestrator_ap.Runtime.Runner.Payments.{
  payment_operation, capture_payment, void_payment, refund_payment,
}

-- Whether the provider did what it was asked.
abbrev pub went_through : Result PaymentError PaymentOperationResult → Bool
went_through (ok r) = r.success
went_through (err e) = false

module _ (operation : PaymentCall) (answer : ℕ → Result PaymentError PaymentOperationResult)
    (request : PaymentLifecycleRequest) (state : PaymentState) (s : Stores) where
  -- What the runner knows of a payment after the operation, told by the provider's answer.
  abbrev pub known_after : Result PaymentError PaymentOperationResult → String → Option PaymentState
  known_after replied id =
      if went_through replied && str_eq request.transaction_id id
      then some state
      else lookup id s.payment_states

  -- The last lines of the operation, from the provider's report on.
  stored :
      (success : Bool) (r : PaymentOperationResult) (t : Stores) (id : String)
      → let (x, u) =
          ((if success then put_payment_state request.transaction_id state else pure tt) >>= λ _.
          pure r)
            t in
        (x ≡ ok r)
        × (u.payments ≡ t.payments)
        × (lookup id u.payment_states ≡ (
            if success && str_eq request.transaction_id id
            then some state
            else lookup id t.payment_states))
  unfolding ◌>>=◌ pure put_payment_state
  stored true r t id = (refl, refl, lookup-insert request.transaction_id id state t.payment_states)
  stored false r t id = (refl, refl, refl)

  answered :
      (replied : Result PaymentError PaymentOperationResult) (id : String)
      → answer s.moment ≡ replied
      → let (r, t) = payment_operation operation answer request state s in
        (r ≡ map_err payment replied)
        × (t.payments ≡ s.payments ++ operation ∷ [])
        × (lookup id t.payment_states ≡ known_after replied id)
  unfolding payment_operation pay ◌>>=◌ pure put_payment_state
  answered (err e) id h = rw h (refl, refl, refl)
  answered (ok r) id h = rw h (
      stored r.success r
        (record s { moment = s.moment + 1; payments = s.payments ++ operation ∷ [] }) id)

  -- The three operations, by what they share.
  payment_operation-known_after :
      (id : String)
      → let (r, t) = payment_operation operation answer request state s in
        (r ≡ map_err payment (answer s.moment))
        × (t.payments ≡ s.payments ++ operation ∷ [])
        × (lookup id t.payment_states ≡ known_after (answer s.moment) id)
  payment_operation-known_after id = answered (answer s.moment) id refl

-- One call of the payment provider, its answer given back, and the state kept where it succeeded.
abbrev pub Operated :
    PaymentCall
    → Result PaymentError PaymentOperationResult
    → PaymentState
    → PaymentLifecycleRequest
    → Stores
    → Result RunnerError PaymentOperationResult × Stores
    → Type 0
Operated call replied state request s (r, t) =
    (r ≡ map_err payment replied)
    × (t.payments ≡ s.payments ++ call ∷ [])
    × ((id : String)
        → lookup id t.payment_states ≡ (
            if went_through replied && str_eq request.transaction_id id
            then some state
            else lookup id s.payment_states))

module _ (runner : Runner) (request : PaymentLifecycleRequest) (s : Stores) where
  operated :
      (call : PaymentCall) (answer : ℕ → Result PaymentError PaymentOperationResult)
      (state : PaymentState)
      → Operated call
          (answer s.moment)
          state
          request
          s
          (payment_operation call answer request state s)
  operated call answer state =
      let known = payment_operation-known_after call answer request state s in
      ((known "").0, (known "").1, λ id. (known id).2)

  -- A capture calls the provider's capture once, a void its void and a refund its refund, and each
  -- answers as the provider does, error included. Exactly where the provider reports success, the
  -- payment's state becomes captured, voided or refunded; no other payment's state changes.
  pub capture_payment-Operated :
      Operated
        (capture request)
        (runner.providers.capture s.moment request)
        captured
        request
        s
        (capture_payment runner request s)
      × (Operated
            (void request)
            (runner.providers.void s.moment request)
            voided
            request
            s
            (void_payment runner request s)
          × Operated
              (refund request)
              (runner.providers.refund s.moment request)
              refunded
              request
              s
              (refund_payment runner request s))
  unfolding capture_payment void_payment refund_payment
  capture_payment-Operated = (
    operated (capture request) (λ n. runner.providers.capture n request) captured,
    (
      operated (void request) (λ n. runner.providers.void n request) voided,
      operated (refund request) (λ n. runner.providers.refund n request) refunded,
    ),
  )
