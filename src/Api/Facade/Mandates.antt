-- ===== src/Api/Facade/Mandates.antt =====
-- A mandate that was used, in execute_checkout of crates/orchestrator-api/src/facade.rs and
-- record_mandate of crates/orchestrator-runtime/src/effects.rs.
use commerce_orchestrator_ap.Prelude.{
  ℕ, ◌+◌, ◌≡◌, refl, ap, ◌∙◌, Bool, true, false, some, List, Bool-cases, inl, inr, All,
}
use commerce_orchestrator_ap.Prelude.Int.{ℤ, pos, ltb_ℤ}
use commerce_orchestrator_ap.Prelude.Eq.{string_eq}
use commerce_orchestrator_ap.Prelude.Dict.{lookup}
use commerce_orchestrator_ap.Core.Contract.{CheckoutRequest}
use commerce_orchestrator_ap.Runtime.Result.{Result, ok, err, map_err}
use commerce_orchestrator_ap.Runtime.Stores.Effects
use commerce_orchestrator_ap.Runtime.Stores.Effects.{Mandates, purge, record_new}
use commerce_orchestrator_ap.Runtime.Monad
use commerce_orchestrator_ap.Runtime.Monad.{Stores}
use commerce_orchestrator_ap.Runtime.Runner.Checkout
use commerce_orchestrator_ap.Runtime.Runner.Delivery
use commerce_orchestrator_ap.Api.Error.{Ap2VerificationError, FacadeError, ap2_verification}
use commerce_orchestrator_ap.Api.Ap2.{
  Ap2MandateRecord, verify_ap2_strict, extract_ap2_mandate_record,
}
use commerce_orchestrator_ap.Api.Facade.Recordings.{
  Recording, after_recordings, recordings-keep, known-refused, accepted-known,
}
use commerce_orchestrator_ap.Api.Facade.{
  OrchestratorFacade, F, lift, give, refuse, check, or_refuse, proceed, ◌>>=◌, accept_mandate,
  admit_mandate, execute_checkout, checkout_when,
}

-- Every field is as it was, but for the mandates and the count of outside calls.
pub record Untouched (s t : Stores) : Type 0 where
  pub payments : t.payments ≡ s.payments
  pub idempotency : t.idempotency ≡ s.idempotency
  pub reservations : t.reservations ≡ s.reservations
  pub commits : t.commits ≡ s.commits
  pub orders : t.orders ≡ s.orders
  pub payment_states : t.payment_states ≡ s.payment_states
  pub outbox : t.outbox ≡ s.outbox
  pub cart_snapshots : t.cart_snapshots ≡ s.cart_snapshots
  pub cart_states : t.cart_states ≡ s.cart_states
  pub cart_events : t.cart_events ≡ s.cart_events
  pub inbox : t.inbox ≡ s.inbox
  pub dead_letter : t.dead_letter ≡ s.dead_letter

-- Refused by the verification, with nothing touched.
pub record Turned {A : Type 0} (s : Stores) (outcome : Result FacadeError A × Stores) : Type 0 where
  pub reason : Ap2VerificationError
  pub refused : outcome.0 ≡ err (ap2_verification reason)
  pub untouched : Untouched s outcome.1

untouched :
    (s : Stores) (n : ℕ) (m : Mandates) → Untouched s (record s { moment = n; mandates = m })
untouched s n m = record {
  payments = refl;
  idempotency = refl;
  reservations = refl;
  commits = refl;
  orders = refl;
  payment_states = refl;
  outbox = refl;
  cart_snapshots = refl;
  cart_states = refl;
  cart_events = refl;
  inbox = refl;
  dead_letter = refl;
}

moved :
    {A : Type 0} {s : Stores} {n : ℕ} {o : Result FacadeError A × Stores}
    → Turned (record s { moment = n }) o
    → Turned s o
moved {s} h = record {
  reason = h.reason;
  refused = h.refused;
  untouched = record {
    payments = h.untouched.payments;
    idempotency = h.untouched.idempotency;
    reservations = h.untouched.reservations;
    commits = h.untouched.commits;
    orders = h.untouched.orders;
    payment_states = h.untouched.payment_states;
    outbox = h.untouched.outbox;
    cart_snapshots = h.untouched.cart_snapshots;
    cart_states = h.untouched.cart_states;
    cart_events = h.untouched.cart_events;
    inbox = h.untouched.inbox;
    dead_letter = h.untouched.dead_letter;
  };
}

-- What follows a refusal is not run.
proceed-Turned :
    {A B : Type 0} (s : Stores) (r : Result FacadeError A) (t : Stores) (f : A → F B)
    → Turned s (r, t)
    → Turned s (proceed r f t)
proceed-Turned s (ok a) t f h = absurd cc (h.refused)
proceed-Turned s (err e) t f h = record {
  reason = h.reason;
  refused = cc (h.refused);
  untouched = h.untouched;
}

-- The second at which a checkout that starts in `s` records its mandate.
abbrev pub recording_time : OrchestratorFacade → Stores → ℤ
recording_time facade s = pos (facade.runner.world.utc (s.moment + 2))

module _ (facade : OrchestratorFacade) (request : CheckoutRequest)
    (mandate : Ap2MandateRecord) where
  accept-Turned :
      (s : Stores) (expiry : ℤ)
      → extract_ap2_mandate_record facade.ap2_env request ≡ ok mandate
      → lookup mandate.mandate_id s.mandates ≡ some expiry
      → ltb_ℤ (pos (facade.runner.world.utc s.moment)) expiry ≡ true
      → Turned s (accept_mandate facade request s)
  unfolding accept_mandate or_refuse lift refuse ◌>>=◌ Delivery.record_mandate Monad.◌>>=◌ Monad.ask
  accept-Turned s expiry x h live =
      rw (x, known-refused mandate.mandate_id expiry _ mandate.expires_at s.mandates h live)
        (record { reason = _; refused = refl; untouched = untouched s _ _ })

  verified-Turned :
      (r : Result Ap2VerificationError (Unit {0})) (s : Stores) (expiry : ℤ)
      → extract_ap2_mandate_record facade.ap2_env request ≡ ok mandate
      → lookup mandate.mandate_id s.mandates ≡ some expiry
      → ltb_ℤ (recording_time facade s) expiry ≡ true
      → Turned s (
          proceed
            (map_err ap2_verification r)
            (λ _. accept_mandate facade request)
            (record s { moment = s.moment + 2 }))
  verified-Turned (err e) s expiry x h live = record {
    reason = e;
    refused = refl;
    untouched = untouched s _ _;
  }
  verified-Turned (ok _) s expiry x h live =
      moved (accept-Turned (record s { moment = s.moment + 2 }) expiry x h live)

  when-Turned :
      (strict : Bool) (s : Stores) (expiry : ℤ)
      → strict ≡ true
      → extract_ap2_mandate_record facade.ap2_env request ≡ ok mandate
      → lookup mandate.mandate_id s.mandates ≡ some expiry
      → ltb_ℤ (recording_time facade s) expiry ≡ true
      → Turned s (checkout_when facade strict request s)
  unfolding checkout_when admit_mandate check ◌>>=◌
  when-Turned true s expiry strict x h live =
      let r = verify_ap2_strict facade.ap2_env s.moment request in
      let o =
        proceed (map_err ap2_verification r) (λ _. accept_mandate facade request)
          (record s { moment = s.moment + 2 }) in
      proceed-Turned s o.0 o.1 (λ _. lift (Checkout.execute_checkout facade.runner request))
        (verified-Turned r s expiry x h live)
  when-Turned false s expiry strict x h live = cc

  accept-known :
      (s : Stores)
      → extract_ap2_mandate_record facade.ap2_env request ≡ ok mandate
      → (accept_mandate facade request s).0 ≡ ok tt
      → lookup mandate.mandate_id (accept_mandate facade request s).1.mandates
        ≡ some mandate.expires_at
  unfolding accept_mandate or_refuse lift refuse give ◌>>=◌ Delivery.record_mandate Monad.◌>>=◌
      Monad.ask
  accept-known s x h =
      let now = pos (facade.runner.world.utc s.moment) in
      let again = Effects.record_mandate now mandate.mandate_id mandate.expires_at s.mandates in
      elim (Bool-cases again.0) [
        | inl new ↦
            rw (x, new) (accepted-known mandate.mandate_id now mandate.expires_at s.mandates new)
        | inr old ↦ absurd (cc (rw (x, old) at h))
      ]

  verified-known :
      (r : Result Ap2VerificationError (Unit {0})) (s : Stores)
      → extract_ap2_mandate_record facade.ap2_env request ≡ ok mandate
      → (proceed (map_err ap2_verification r) (λ _. accept_mandate facade request) s).0 ≡ ok tt
      → lookup mandate.mandate_id
          (proceed (map_err ap2_verification r) (λ _. accept_mandate facade request) s).1.mandates
        ≡ some mandate.expires_at
  verified-known (err e) s x h = absurd cc
  verified-known (ok _) s x h = accept-known s x h

  -- A checkout that was let through leaves its mandate on record.
  admitted-known :
      (s : Stores)
      → extract_ap2_mandate_record facade.ap2_env request ≡ ok mandate
      → (admit_mandate facade request s).0 ≡ ok tt
      → lookup mandate.mandate_id (admit_mandate facade request s).1.mandates
        ≡ some mandate.expires_at
  unfolding admit_mandate check ◌>>=◌
  admitted-known s x h =
      verified-known (verify_ap2_strict facade.ap2_env s.moment request)
        (record s { moment = s.moment + 2 }) x h

-- In strict mode, once a checkout was let past its mandate, a checkout that brings the same mandate
-- is refused by the verification and touches no key, reservation, commit, order, payment, message
-- or cart, whatever mandates were recorded in between, as long as the clock is short of the
-- mandate's expiry then and now.
pub replay-Turned :
    (facade : OrchestratorFacade) (first again : CheckoutRequest) (mandate : Ap2MandateRecord)
    (s t : Stores) (later : List Recording)
    → facade.ap2_strict ≡ true
    → extract_ap2_mandate_record facade.ap2_env first ≡ ok mandate
    → extract_ap2_mandate_record facade.ap2_env again ≡ ok mandate
    → (admit_mandate facade first s).0 ≡ ok tt
    → t.mandates ≡ after_recordings later (admit_mandate facade first s).1.mandates
    → All (λ r. ltb_ℤ r.0 mandate.expires_at ≡ true) later
    → ltb_ℤ (recording_time facade t) mandate.expires_at ≡ true
    → Turned t (execute_checkout facade again t)
unfolding execute_checkout
replay-Turned facade first again mandate s t later strict x y passed same live now =
    when-Turned facade again mandate facade.ap2_strict t mandate.expires_at strict y
      (ap (lookup mandate.mandate_id) same
        ∙ recordings-keep mandate.mandate_id mandate.expires_at later _
            (admitted-known facade first mandate s x passed) live)
      now
