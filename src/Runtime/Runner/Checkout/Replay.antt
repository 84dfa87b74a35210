-- ===== src/Runtime/Runner/Checkout/Replay.antt =====
-- Idempotency keys in execute_checkout of crates/orchestrator-runtime/src/runner.rs.
use commerce_orchestrator_ap.Prelude.{
  ◌≡◌, sym, subst, String, Bool, true, false, Option, none, some, if◌then◌else◌, Option-cases,
  Bool-cases, inl, inr,
}
use commerce_orchestrator_ap.Prelude.Dict.{lookup, insert, lookup-insert_self}
use commerce_orchestrator_ap.Core.Contract.{
  CartProjection, CheckoutRequest, TransactionResult, TransactionStatus,
}
use commerce_orchestrator_ap.Core.Policy.{PolicyCheckResult, allowed, rejected}
use commerce_orchestrator_ap.Core.StateMachine.Checkout.{CheckoutState}
use commerce_orchestrator_ap.Core.Validation.{validate_checkout_request}
use commerce_orchestrator_ap.Runtime.Result.{Result, ok, err}
use commerce_orchestrator_ap.Runtime.Providers.{AuthResult}
use commerce_orchestrator_ap.Runtime.Stores.Idempotency
use commerce_orchestrator_ap.Runtime.Stores.Idempotency.{
  IdempotencyKey, key_eq, IdempotencyState, in_flight, completed, claim, claimed,
}
use commerce_orchestrator_ap.Runtime.Monad.{
  M, Stores, Runner, RunnerError, ◌>>=◌, ◌>>◌, pure, raise, already_in_flight, continue,
}
use commerce_orchestrator_ap.Runtime.Monad.Post.{Holds}
use commerce_orchestrator_ap.Runtime.Runner.Checkout.{
  complete_key, claim_key, put_payment_state, decline, conclude, charge, after_authorization,
  after_policy, run_machine, checkout_claimed, answer_claim, execute_checkout, key_of,
}

-- The key keeps the result that an outcome returns.
abbrev Recorded : IdempotencyKey → Result RunnerError TransactionResult × Stores → Type 0
Recorded key = Holds (λ r t. lookup key t.idempotency ≡ some (completed r)) (λ _ _. Unit)

record Records (key : IdempotencyKey) (m : M TransactionResult) : Type 0 where
  at : (s : Stores) → Recorded key (m s)

module _ {A : Type 0} (key : IdempotencyKey) where
  continue-Recorded :
      (r : Result RunnerError A) (f : A → M TransactionResult) (s : Stores)
      → ((a : A) → Records key (f a))
      → Recorded key (continue r f s)
  continue-Recorded (ok a) f s h = (h a).at s
  continue-Recorded (err e) f s h = tt

  Records-bind :
      (m : M A) (f : A → M TransactionResult)
      → ((a : A) → Records key (f a))
      → Records key (m >>= f)
  unfolding ◌>>=◌
  Records-bind m f h = record { at = λ s. continue-Recorded (m s).0 f (m s).1 h }

-- How a checkout that returns a new result ends.
complete-Records :
    (key : IdempotencyKey) (r : TransactionResult)
    → Records key
        (complete_key key r >> (put_payment_state r.transaction_id r.payment_state >> pure r))
unfolding complete_key put_payment_state ◌>>=◌ pure Idempotency.complete
complete-Records key r = record { at = λ s. lookup-insert_self key (completed r) s.idempotency }

Records-if :
    (key : IdempotencyKey) (b : Bool) (m n : M TransactionResult)
    → Records key m
    → Records key n
    → Records key (if b then m else n)
Records-if key true m n h k = h
Records-if key false m n h k = k

module _ (runner : Runner) (request : CheckoutRequest) where
  abbrev key : IdempotencyKey
  key = key_of request

  decline-Records :
      (cart : CartProjection) (status : TransactionStatus) (reference audit : Option String)
      → Records key (decline runner request cart status reference audit)
  unfolding decline
  decline-Records cart status reference audit = Records-bind key _ _ λ transaction.
      Records-bind key _ _ λ correlation. Records-bind key _ _ λ _. complete-Records key _

  charge-Records :
      (cart : CartProjection) (state : CheckoutState) (auth : AuthResult)
      → Records key (charge runner request cart state auth)
  unfolding charge conclude
  charge-Records cart state auth = Records-bind key _ _ λ _. Records-bind key _ _ λ _.
      Records-bind key _ _ λ _. Records-bind key _ _ λ _. Records-bind key _ _ λ _.
        Records-bind key _ _ λ _. Records-bind key _ _ λ _. Records-bind key _ _ λ _.
          Records-bind key _ _ λ _. Records-bind key _ _ λ _.
            Records-bind key _ _
              λ _. Records-bind key _ _ λ _. Records-bind key _ _ λ _. complete-Records key _

  policy-Records :
      (verdict : PolicyCheckResult) (cart : CartProjection) (state : CheckoutState)
      → Records key (after_policy runner verdict request cart state)
  unfolding after_policy after_authorization
  policy-Records (rejected errors) cart state = decline-Records cart _ _ _
  policy-Records allowed cart state = Records-bind key _ _ λ auth.
      Records-if key auth.authorized _ _ (charge-Records cart state auth)
        (decline-Records cart _ _ _)

  claimed-Records : Records key (checkout_claimed runner request)
  unfolding checkout_claimed run_machine
  claimed-Records = Records-bind key _ _ λ cart. Records-bind key _ _ λ _. Records-bind key _ _ λ _.
      Records-bind key _ _
        λ _. Records-bind key _ _ λ _. Records-bind key _ _ λ _. policy-Records _ cart _

  -- What a valid request finds under its key decides the rest.
  module _ (s : Stores) (valid : (validate_checkout_request request).valid ≡ true) where
    execute-found :
        (found : IdempotencyState)
        → lookup key s.idempotency ≡ some found
        → execute_checkout runner request s ≡ answer_claim runner (some found) request s
    unfolding execute_checkout claim_key claim ◌>>=◌
    execute-found found e = rw (valid, e)

    pub execute-new :
        lookup key s.idempotency ≡ none
        → execute_checkout runner request s
          ≡ checkout_claimed runner request
              (record s { idempotency = insert key in_flight s.idempotency })
    unfolding execute_checkout claim_key claim ◌>>=◌ answer_claim
    execute-new e = rw (valid, e)

    found-Recorded :
        (found : IdempotencyState)
        → lookup key s.idempotency ≡ some found
        → Recorded key (answer_claim runner (some found) request s)
    unfolding answer_claim pure raise
    found-Recorded in_flight e = tt
    found-Recorded (completed r) e = e

    valid-Recorded : Recorded key (execute_checkout runner request s)
    valid-Recorded = elim (Option-cases (lookup key s.idempotency)) [
      | inl free ↦ subst (Recorded key) (sym (execute-new free)) (claimed-Records.at _)
      | inr (found, e) ↦ subst (Recorded key) (sym (execute-found found e)) (found-Recorded found e)
    ]

    -- A valid request whose key is in flight is refused and changes nothing.
    pub in_flight_refused :
        lookup key s.idempotency ≡ some in_flight
        → execute_checkout runner request s ≡ (err already_in_flight, s)
    unfolding answer_claim raise
    in_flight_refused e = execute-found in_flight e

  -- A checkout that returns a result was a valid request.
  result-valid :
      (s t : Stores) (r : TransactionResult)
      → execute_checkout runner request s ≡ (ok r, t)
      → (validate_checkout_request request).valid ≡ true
  unfolding execute_checkout raise
  result-valid s t r h = elim (Bool-cases (validate_checkout_request request).valid) [
    | inl valid ↦ valid
    | inr invalid ↦ cc (rw (invalid, if◌then◌else◌) at h)
  ]

  -- A checkout that has returned a result returns the same result when it is repeated, and the
  -- repetition changes nothing: no provider is called and nothing is written.
  pub retry_returns_same :
      (s t : Stores) (r : TransactionResult)
      → execute_checkout runner request s ≡ (ok r, t)
      → execute_checkout runner request t ≡ (ok r, t)
  unfolding answer_claim pure
  retry_returns_same s t r h =
      let valid = result-valid s t r h in
      execute-found t valid (completed r) (subst (Recorded key) h (valid-Recorded s valid))
