-- ===== src/Runtime/Runner/Checkout/Stranded.antt =====
-- What a checkout that fails after its settlement leaves under its idempotency key
-- (execute_checkout of crates/orchestrator-runtime/src/runner.rs).
use commerce_orchestrator_ap.Prelude.{
  ℕ, ◌≡◌, refl, sym, ◌∙◌, ap, subst, String, Bool, true, false, Option, none, some, if◌then◌else◌,
}
use commerce_orchestrator_ap.Prelude.Dict.{lookup, lookup-insert_self}
use commerce_orchestrator_ap.Core.Contract.{
  CartProjection, CheckoutRequest, TransactionResult, TransactionStatus, CartLineProjection,
}
use commerce_orchestrator_ap.Core.Policy.{PolicyCheckResult, allowed, rejected}
use commerce_orchestrator_ap.Core.StateMachine.Checkout.{CheckoutState}
use commerce_orchestrator_ap.Core.Validation.{validate_checkout_request}
use commerce_orchestrator_ap.Runtime.Result.{Result, ok, err}
use commerce_orchestrator_ap.Runtime.Providers.{AuthResult, PaymentError}
use commerce_orchestrator_ap.Runtime.Stores.Idempotency.{IdempotencyKey, key_eq, in_flight}
use commerce_orchestrator_ap.Runtime.Stores.Inventory.{Reservations}
use commerce_orchestrator_ap.Runtime.Monad.{
  M, Stores, Runner, RunnerError, PaymentCall, ◌>>=◌, ◌>>◌, pure, pay, on_error, otherwise,
  continue, for_each, already_in_flight,
}
use commerce_orchestrator_ap.Runtime.Monad.Post.{
  Holds, Order, Moves, Moves-pure, Moves-or_raise, Moves-bind, Moves-for_each,
}
use commerce_orchestrator_ap.Runtime.Runner.Events.{
  append_cart_event, put_cart_snapshot, set_cart_state,
}
use commerce_orchestrator_ap.Runtime.Runner.Carts.Steps.{CartOrder, Moves-ask, Moves-call}
use commerce_orchestrator_ap.Runtime.Runner.Checkout.{
  complete_key, set_reservations, put_payment_state, put_order, enqueue, put_commit, reserve_line,
  commit_cart, decline, place_order, conclude, charge, after_authorization, after_policy,
  run_machine, checkout_claimed, settle_cart_for_checkout, execute_checkout, key_of,
}
use commerce_orchestrator_ap.Runtime.Runner.Checkout.Settle.{settle-Moves}
use commerce_orchestrator_ap.Runtime.Runner.Checkout.Failure.{taken}
use commerce_orchestrator_ap.Runtime.Runner.Checkout.Replay.{execute-new, in_flight_refused}

-- The idempotency keys are as they were.
record SameKeys (s t : Stores) : Type 0 where
  keys : t.idempotency ≡ s.idempotency

abbrev same_keys : Order SameKeys
same_keys = record {
  same = λ s. record { keys = refl };
  join = λ s t u h k. record { keys = k.keys ∙ h.keys };
}

o : CartOrder SameKeys
unfolding append_cart_event put_cart_snapshot set_cart_state
o = record {
  order = same_keys;
  ticks = λ s n. record { keys = refl };
  events = λ cart_id e. record { at = λ s. record { keys = refl } };
  states = λ cart_id state. record { at = λ s. record { keys = refl } };
  stores = λ c p. record { at = λ s. record { keys = refl } };
}

pay-Same : {A : Type 0} (c : PaymentCall) (f : ℕ → Result PaymentError A) → Moves SameKeys (pay c f)
unfolding pay
pay-Same c f = record { at = λ s. record { keys = refl } }

reservations-Same : (f : Reservations → Reservations) → Moves SameKeys (set_reservations f)
unfolding set_reservations
reservations-Same f = record { at = λ s. record { keys = refl } }

module _ (runner : Runner) (request : CheckoutRequest) where
  reserve-Same : (line : CartLineProjection) → Moves SameKeys (reserve_line runner request line)
  unfolding reserve_line
  reserve-Same line = Moves-bind same_keys (Moves-ask o _) λ now. reservations-Same _

  commit-Same :
      (reference : Option String) → Moves SameKeys (commit_cart runner request.cart_id reference)
  unfolding commit_cart put_commit
  commit-Same reference = Moves-bind same_keys (Moves-ask o _) λ uuid.
      Moves-bind same_keys (record { at = λ s. record { keys = refl } }) λ _. Moves-pure same_keys _

  order-Same :
      (cart : CartProjection) (transaction : String)
      → Moves SameKeys (place_order runner request cart transaction)
  unfolding place_order put_order
  order-Same cart transaction = Moves-bind same_keys (Moves-ask o _) λ uuid.
      Moves-bind same_keys (Moves-ask o _) λ event. Moves-bind same_keys (Moves-ask o _) λ occurred.
        Moves-bind same_keys (Moves-ask o _) λ created.
          Moves-bind same_keys (record { at = λ s. record { keys = refl } })
            λ _. Moves-pure same_keys _

-- An error leaves the key in flight.
abbrev Held : IdempotencyKey → Stores → Type 0
Held key s = lookup key s.idempotency ≡ some in_flight

record Strands (key : IdempotencyKey) (m : M TransactionResult) : Type 0 where
  at : (s : Stores) → Held key s → Holds (λ _ _. Unit) (λ _ t. Held key t) (m s)

module _ (key : IdempotencyKey) where
  continue-Strands :
      {A : Type 0} (r : Result RunnerError A) (f : A → M TransactionResult) (t : Stores)
      → Held key t
      → ((a : A) → Strands key (f a))
      → Holds (λ _ _. Unit) (λ _ u. Held key u) (continue r f t)
  continue-Strands (ok a) f t h next = (next a).at t h
  continue-Strands (err e) f t h next = h

  Strands-bind :
      {A : Type 0} {m : M A} {f : A → M TransactionResult}
      → Moves SameKeys m
      → ((a : A) → Strands key (f a))
      → Strands key (m >>= f)
  unfolding ◌>>=◌
  Strands-bind {A} {m} {f} same next = record {
    at = λ s h.
        continue-Strands (m s).0 f (m s).1 (ap (λ k. lookup key k) ((same.at s).keys) ∙ h) next;
  }

  complete-Strands :
      (k : IdempotencyKey) (r : TransactionResult)
      → Strands key
          (complete_key k r >> (put_payment_state r.transaction_id r.payment_state >> pure r))
  unfolding complete_key put_payment_state ◌>>=◌ pure
  complete-Strands k r = record { at = λ s h. tt }

  Strands-if :
      (b : Bool) (m n : M TransactionResult)
      → Strands key m
      → Strands key n
      → Strands key (if b then m else n)
  Strands-if true m n h k = h
  Strands-if false m n h k = k

module _ (runner : Runner) (request : CheckoutRequest) where
  abbrev key : IdempotencyKey
  key = key_of request

  decline-Strands :
      (cart : CartProjection) (status : TransactionStatus) (reference audit : Option String)
      → Strands key (decline runner request cart status reference audit)
  unfolding decline
  decline-Strands cart status reference audit = Strands-bind key (Moves-ask o _) λ transaction.
      Strands-bind key (Moves-ask o _)
        λ correlation. Strands-bind key (reservations-Same _) λ _. complete-Strands key _ _

  conclude-Strands :
      (cart : CartProjection) (result : TransactionResult) (id : String)
      → Strands key (conclude runner request cart result id)
  unfolding conclude enqueue
  conclude-Strands cart result id = Strands-bind key (Moves-call o _ _) λ proof.
      Strands-bind key (reservations-Same _) λ _. Strands-bind key (Moves-ask o _) λ message.
        Strands-bind key (record { at = λ s. record { keys = refl } }) λ _. complete-Strands key _ _

  charge-Strands :
      (cart : CartProjection) (state : CheckoutState) (auth : AuthResult)
      → Strands key (charge runner request cart state auth)
  unfolding charge
  charge-Strands cart state auth = Strands-bind key (Moves-or_raise same_keys _ _) λ authorized.
      Strands-bind key (commit-Same runner request _) λ committed.
        Strands-bind key (pay-Same _ _) λ captured.
          Strands-bind key (Moves-or_raise same_keys _ _) λ written.
            Strands-bind key (order-Same runner request cart _) λ order_id.
              Strands-bind key (Moves-or_raise same_keys _ _) λ receipted.
                Strands-bind key (Moves-or_raise same_keys _ _) λ finished.
                  Strands-bind key (Moves-or_raise same_keys _ _) λ status.
                    Strands-bind key (Moves-ask o _) λ correlation. conclude-Strands cart _ order_id

  policy-Strands :
      (verdict : PolicyCheckResult) (cart : CartProjection) (state : CheckoutState)
      → Strands key (after_policy runner verdict request cart state)
  unfolding after_policy after_authorization
  policy-Strands (rejected errors) cart state = decline-Strands cart _ _ _
  policy-Strands allowed cart state = Strands-bind key (pay-Same _ _) λ auth.
      Strands-if key auth.authorized _ _ (charge-Strands cart state auth)
        (decline-Strands cart _ _ _)

  settled-Strands :
      (cart : CartProjection)
      → Strands key
          (for_each cart.lines (reserve_line runner request) >> run_machine runner request cart)
  unfolding run_machine
  settled-Strands cart =
      Strands-bind key (Moves-for_each same_keys cart.lines _ (reserve-Same runner request)) λ _.
        Strands-bind key (Moves-or_raise same_keys _ _) λ _.
          Strands-bind key (Moves-or_raise same_keys _ _) λ _.
            Strands-bind key (Moves-or_raise same_keys _ _)
              λ _. Strands-bind key (Moves-or_raise same_keys _ _) λ _. policy-Strands _ cart _

  claimed-settled :
      (s : Stores) (cart : CartProjection)
      → (settle_cart_for_checkout runner request s).0 ≡ ok cart
      → checkout_claimed runner request s
        ≡ (for_each cart.lines (reserve_line runner request) >> run_machine runner request cart)
            (settle_cart_for_checkout runner request s).1
  unfolding checkout_claimed on_error ◌>>=◌
  claimed-settled s cart h = rw (h, otherwise) refl

  -- A valid request with a free key whose cart settles, but whose checkout then fails (an error of
  -- the payment or receipt provider), leaves its key in flight: every retry from those stores is
  -- refused as already in flight and changes nothing.
  pub failed_payment_strands_key :
      (s t : Stores) (cart : CartProjection) (e : RunnerError)
      → (validate_checkout_request request).valid ≡ true
      → lookup key s.idempotency ≡ none
      → (settle_cart_for_checkout runner request (taken request s)).0 ≡ ok cart
      → execute_checkout runner request s ≡ (err e, t)
      → execute_checkout runner request t ≡ (err already_in_flight, t)
  failed_payment_strands_key s t cart e valid free settles fails =
      let start = taken request s in
      let same = (settle-Moves o runner request).at start in
      let held =
        ap (λ k. lookup key k) same.keys ∙ lookup-insert_self key in_flight s.idempotency in
      let run =
        sym (claimed-settled start cart settles)
        ∙ sym (execute-new runner request s valid free)
        ∙ fails in
      in_flight_refused runner request t valid
        (subst (Holds (λ _ _. Unit) (λ _ u. Held key u)) run ((settled-Strands cart).at _ held))
