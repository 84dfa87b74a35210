-- ===== src/Runtime/Runner/Checkout/Charges.antt =====
-- The calls of the payment provider that execute_checkout of
-- crates/orchestrator-runtime/src/runner.rs makes.
use mathlib.Core.List.{append-nil, append_assoc}
use commerce_orchestrator_ap.Prelude.{
  ℕ, ◌≡◌, refl, sym, ap, ◌∙◌, Option, none, some, List, [], ◌∷◌, ◌++◌,
}
use commerce_orchestrator_ap.Core.Contract.{
  CartProjection, CheckoutRequest, PaymentLifecycleRequest,
}
use commerce_orchestrator_ap.Core.Policy.{PolicyCheckResult, allowed, rejected, check_checkout}
use commerce_orchestrator_ap.Core.StateMachine.Checkout.{CheckoutState}
use commerce_orchestrator_ap.Core.Validation.{validate_checkout_request}
use commerce_orchestrator_ap.Runtime.Result.{Result}
use commerce_orchestrator_ap.Runtime.Providers.{AuthResult, PaymentError}
use commerce_orchestrator_ap.Runtime.Stores.Idempotency.{IdempotencyState, in_flight, completed}
use commerce_orchestrator_ap.Runtime.Monad.{
  M, Stores, Runner, PaymentCall, authorize, capture, ◌>>=◌, pay,
}
use commerce_orchestrator_ap.Runtime.Monad.Post.{
  bind-Post, Moves, Moves-pure, Moves-raise, Moves-or_raise, Moves-bind, Moves-for_each, Ends,
  Ends-elim, Ends-intro, Post-and, on_error-Post, Post-if,
}
use commerce_orchestrator_ap.Runtime.Runner.Carts.Steps.{Moves-ask}
use commerce_orchestrator_ap.Runtime.Runner.Checkout.{
  charge, after_authorization, after_policy, run_machine, checkout_claimed, answer_claim,
  execute_checkout, key_of,
}
use commerce_orchestrator_ap.Runtime.Runner.Checkout.Settle.{settle-IsSettled}
use commerce_orchestrator_ap.Runtime.Runner.Checkout.Quiet.{
  SamePayments, same_payments, SamePayments-cart_order, release-Same, claim-Same, settle-Same,
  reserve-Same, decline-Same, commit_cart-Same, place_order-Same, conclude-Same,
}

-- The calls that a checkout of `request` may make, in order: none; an authorization of the request
-- as it came; or that and one capture, of the amount that the request offered.
pub data Charged (request : CheckoutRequest) : List PaymentCall → Type 0 where
  nothing : Charged request []
  asked : Charged request (authorize request ∷ [])
  taken :
      (c : PaymentLifecycleRequest)
      → c.amount_minor ≡ request.payment_intent.amount_minor
      → Charged request (authorize request ∷ capture c ∷ [])

-- The calls between `s` and `t` are such calls.
pub record Charges (request : CheckoutRequest) (s t : Stores) : Type 0 where
  pub calls : List PaymentCall
  pub added : t.payments ≡ s.payments ++ calls
  pub kind : Charged request calls

quiet : {request : CheckoutRequest} (s t : Stores) → SamePayments s t → Charges request s t
quiet s t h = record {
  calls = [];
  added = h.payments ∙ sym (append-nil s.payments);
  kind = nothing;
}

-- What came before made no call.
Charges-after :
    {request : CheckoutRequest} (s t u : Stores)
    → SamePayments s t
    → Charges request t u
    → Charges request s u
Charges-after s t u h c = record {
  calls = c.calls;
  added = c.added ∙ ap (λ p. p ++ c.calls) h.payments;
  kind = c.kind;
}

-- What comes after makes none.
Charges-before :
    {request : CheckoutRequest} (s t u : Stores)
    → Charges request s t
    → SamePayments t u
    → Charges request s u
Charges-before s t u c h = record { calls = c.calls; added = h.payments ∙ c.added; kind = c.kind }

-- The authorization has been asked for, and nothing else.
pub record Authorizing (request : CheckoutRequest) (s t : Stores) : Type 0 where
  pub added : t.payments ≡ s.payments ++ authorize request ∷ []

Authorizing-Charges :
    {request : CheckoutRequest} (s t : Stores) → Authorizing request s t → Charges request s t
Authorizing-Charges {request} s t a = record {
  calls = authorize request ∷ [];
  added = a.added;
  kind = asked;
}

Authorizing-next :
    {request : CheckoutRequest} (s t u : Stores)
    → Authorizing request s t
    → SamePayments t u
    → Authorizing request s u
Authorizing-next s t u a h = record { added = h.payments ∙ a.added }

pay-added :
    {A : Type 0} (c : PaymentCall) (f : ℕ → Result PaymentError A) (s : Stores)
    → (pay c f s).1.payments ≡ s.payments ++ c ∷ []
unfolding pay
pay-added c f s = refl

capture-Charges :
    {request : CheckoutRequest} (s t : Stores) (c : PaymentLifecycleRequest) (u : Stores)
    → Authorizing request s t
    → c.amount_minor ≡ request.payment_intent.amount_minor
    → u.payments ≡ t.payments ++ capture c ∷ []
    → Charges request s u
capture-Charges {request} s t c u a m e = record {
  calls = authorize request ∷ capture c ∷ [];
  added =
      e
      ∙ ap (λ p. p ++ capture c ∷ []) a.added
      ∙ append_assoc s.payments (authorize request ∷ []) (capture c ∷ []);
  kind = taken c m;
}

-- A line that makes no call, in a block that ends well from there.
module _ {A B : Type 0} (P : Stores → Stores → Type 0) (Q : Stores → Type 0) (s : Stores) where
  quiet_line :
      (m : M A) (f : A → M B) (t : Stores)
      → Moves SamePayments m
      → ((u : Stores) → SamePayments t u → P s u)
      → ((u : Stores) → P s u → Q u)
      → ((a : A) (u : Stores) → P s u → Ends Q (f a u))
      → Ends Q ((m >>= f) t)
  quiet_line m f t h keep stop next =
      bind-Post m f t (Ends-intro (P s) (m t) (keep _ (h.at t))) next λ e u. stop u

module _ (runner : Runner) (request : CheckoutRequest) (s : Stores) where
  abbrev Done : Stores → Type 0
  Done = Charges request s

  -- After the capture.
  ending : {A : Type 0} (m : M A) (t : Stores) → Moves SamePayments m → Done t → Ends Done (m t)
  ending m t h c = Ends-intro Done (m t) (Charges-before s t _ c (h.at t))

  charge-Charges :
      (cart : CartProjection) (state : CheckoutState) (auth : AuthResult) (t : Stores)
      → request.payment_intent.amount_minor ≡ cart.total_minor
      → Authorizing request s t
      → Ends Done (charge runner request cart state auth t)
  unfolding charge
  charge-Charges cart state auth t amount a =
      quiet_line (Authorizing request) Done s _ _ t (Moves-or_raise same_payments _ _)
        (λ u. Authorizing-next s t u a) (Authorizing-Charges s)
        λ authorized t a.
          quiet_line (Authorizing request) Done s _ _ t (commit_cart-Same runner request _)
            (λ u. Authorizing-next s t u a) (Authorizing-Charges s)
            λ committed t a.
              bind-Post _ _ t
                (Ends-intro Done _ (capture-Charges s t _ _ a (sym amount) (pay-added _ _ t)))
                (λ r t c.
                  ending _ t
                    (Moves-bind same_payments (Moves-or_raise same_payments _ _) λ written.
                      Moves-bind same_payments (place_order-Same runner request cart _) λ order_id.
                        Moves-bind same_payments (Moves-or_raise same_payments _ _) λ receipted.
                          Moves-bind same_payments (Moves-or_raise same_payments _ _) λ finished.
                            Moves-bind same_payments (Moves-or_raise same_payments _ _) λ status.
                              Moves-bind same_payments (Moves-ask SamePayments-cart_order _)
                                λ correlation. conclude-Same runner request cart _ order_id)
                    c)
                (λ e u h. h)

  after_authorization-Charges :
      (cart : CartProjection) (state : CheckoutState) (auth : AuthResult) (t : Stores)
      → request.payment_intent.amount_minor ≡ cart.total_minor
      → Authorizing request s t
      → Ends Done (after_authorization runner request cart state auth t)
  unfolding after_authorization
  after_authorization-Charges cart state auth t amount a =
      Post-if auth.authorized _ _ t (charge-Charges cart state auth t amount a)
        (ending _ t (decline-Same runner request cart _ _ _) (Authorizing-Charges s t a))

  after_policy-Charges :
      (verdict : PolicyCheckResult) (cart : CartProjection) (state : CheckoutState) (t : Stores)
      → request.payment_intent.amount_minor ≡ cart.total_minor
      → SamePayments s t
      → Ends Done (after_policy runner verdict request cart state t)
  unfolding after_policy
  after_policy-Charges (rejected errors) cart state t amount h =
      ending _ t (decline-Same runner request cart _ _ _) (quiet s t h)
  after_policy-Charges allowed cart state t amount h =
      bind-Post _ _ t
        (Ends-intro (Authorizing request s) _
          (record { added = pay-added _ _ t ∙ ap (λ p. p ++ authorize request ∷ []) h.payments }))
        (λ auth t a. after_authorization-Charges cart state auth t amount a)
        (λ e u a. Authorizing-Charges s u a)

  machine-Charges :
      (cart : CartProjection) (t : Stores)
      → request.payment_intent.amount_minor ≡ cart.total_minor
      → SamePayments s t
      → Ends Done (run_machine runner request cart t)
  unfolding run_machine
  machine-Charges cart t amount h =
      let along = λ (t u : Stores) (h : SamePayments s t) (k : SamePayments t u).
        same_payments.join s t u h k in
      quiet_line SamePayments Done s _ _ t (Moves-or_raise same_payments _ _) (λ u. along t u h)
        (quiet s)
        λ validated t h.
          quiet_line SamePayments Done s _ _ t (Moves-or_raise same_payments _ _) (λ u. along t u h)
            (quiet s)
            λ priced t h.
              quiet_line SamePayments Done s _ _ t (Moves-or_raise same_payments _ _)
                (λ u. along t u h) (quiet s)
                λ taxed t h.
                  quiet_line SamePayments Done s _ _ t (Moves-or_raise same_payments _ _)
                    (λ u. along t u h) (quiet s)
                    λ checked t h.
                      after_policy-Charges (check_checkout runner.policy request cart.total_minor)
                        cart checked t amount h

  claimed-Charges : (t : Stores) → SamePayments s t → Ends Done (checkout_claimed runner request t)
  unfolding checkout_claimed
  claimed-Charges t h =
      bind-Post _ _ t
        (on_error-Post (λ _ u. SamePayments s u) _ _ t
          (Post-and (SamePayments s) _ (settle-IsSettled runner request t)
            (same_payments.join s t _ h ((settle-Same runner request).at t)))
          (λ e u k. same_payments.join s u _ k.1 ((release-Same (key_of request)).at u)))
        (λ cart t (settled, h).
          quiet_line SamePayments Done s _ _ t
            (Moves-for_each same_payments cart.lines _ (reserve-Same runner request))
            (λ u. same_payments.join s t u h) (quiet s)
            λ _ t h. machine-Charges cart t settled.amount_matches h)
        (λ e u k. quiet s u k)

  answer-Charges :
      (found : Option IdempotencyState) (t : Stores)
      → SamePayments s t
      → Ends Done (answer_claim runner found request t)
  unfolding answer_claim
  answer-Charges (some in_flight) t h = ending _ t (Moves-raise same_payments _) (quiet s t h)
  answer-Charges (some (completed r)) t h = ending _ t (Moves-pure same_payments r) (quiet s t h)
  answer-Charges none t h = claimed-Charges t h

-- However a checkout ends, the payment calls that it makes are none, or one authorization of the
-- request, or that and then one capture, and a capture is of exactly the amount that the request's
-- payment intent offers.
pub execute_checkout-Charges :
    (runner : Runner) (request : CheckoutRequest) (s : Stores)
    → Charges request s (execute_checkout runner request s).1
unfolding execute_checkout
execute_checkout-Charges runner request s = Ends-elim (Charges request s) _ (
    Post-if (validate_checkout_request request).valid _ _ s
      (quiet_line SamePayments (Charges request s) s _ _ s (claim-Same (key_of request)) (λ u h. h)
        (quiet s) λ found t h. answer-Charges runner request s found t h)
      (ending runner request s _ s (Moves-raise same_payments _)
        (quiet s s (same_payments.same s))))
