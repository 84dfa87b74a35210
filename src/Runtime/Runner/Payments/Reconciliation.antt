-- ===== src/Runtime/Runner/Payments/Reconciliation.antt =====
-- What a reconciliation reports (run_reconciliation of crates/orchestrator-runtime/src/runner.rs).
use commerce_orchestrator_ap.Prelude.{
  ℕ, zero, suc, ◌+◌, ◌≡◌, refl, ap, sym, ◌∙◌, ◌↔◌, Bool-cases, inl, inr, ==_sound, ==_refl, subst,
  String, true, Option, none, some, List, [], ◌∷◌,
}
use commerce_orchestrator_ap.Prelude.Eq.{string_eq}
use commerce_orchestrator_ap.Prelude.Dict.{lookup}
use commerce_orchestrator_ap.Core.Contract.{
  PaymentState, authorized, captured, voided, refund_pending, refunded, reconciled, failed,
  eq_payment_state, payment_state_code,
}
use commerce_orchestrator_ap.Runtime.Result.{Result, ok, err}
use commerce_orchestrator_ap.Runtime.Monad.{Stores, Runner, RunnerError, ◌>>=◌, pure, gets, ask}
use commerce_orchestrator_ap.Runtime.Runner.Payments.{
  PaymentMismatch, ReconciliationReport, compare_states, mismatches, run_reconciliation,
}

-- Two views of a payment agree where one of them is missing, or both are the same state.
abbrev Agree : Option PaymentState → Option PaymentState → Type 0
Agree (some ours) (some theirs) = ours ≡ theirs
Agree _ _ = Unit

-- Every transaction listed agrees with what the provider says when it is asked, once after the other
-- from `moment` on.
abbrev pub AllAgree : Runner → Stores → ℕ → List String → Type 0
AllAgree runner s moment [] = Unit
AllAgree runner s moment (txn_id ∷ rest) =
    Agree (lookup txn_id s.payment_states) (runner.providers.get_payment_state moment txn_id)
    × AllAgree runner s (moment + 1) rest

-- What the loop builds from `moment` on, over fixed stores.
abbrev disagreements : Runner → Stores → ℕ → List String → List PaymentMismatch
disagreements runner s moment [] = []
disagreements runner s moment (txn_id ∷ rest) =
    compare_states txn_id (lookup txn_id s.payment_states)
      (runner.providers.get_payment_state moment txn_id) (disagreements runner s (moment + 1) rest)

disagreements-moment :
    (runner : Runner) (txns : List String) (s : Stores) (moment asked : ℕ)
    → disagreements runner (record s { moment = moment }) asked txns
      ≡ disagreements runner s asked txns
disagreements-moment runner [] s moment asked = refl
disagreements-moment runner (t ∷ ts) s moment asked =
    rw (disagreements-moment runner ts s moment (asked + 1)) refl

mismatches-disagreements :
    (runner : Runner) (txns : List String) (s : Stores)
    → (mismatches runner txns s).0 ≡ ok (disagreements runner s s.moment txns)
unfolding mismatches ◌>>=◌ pure gets ask
mismatches-disagreements runner [] s = refl
mismatches-disagreements runner (t ∷ ts) s =
    let others =
      mismatches-disagreements runner ts (record s { moment = s.moment + 1 })
      ∙ ap ok (disagreements-moment runner ts s (s.moment + 1) (s.moment + 1)) in
    rw others refl

abbrev state_of_code : ℕ → PaymentState
state_of_code zero = authorized
state_of_code (suc zero) = captured
state_of_code (suc (suc zero)) = voided
state_of_code (suc (suc (suc zero))) = refund_pending
state_of_code (suc (suc (suc (suc zero)))) = refunded
state_of_code (suc (suc (suc (suc (suc zero))))) = reconciled
state_of_code _ = failed

state_of_code-code : (p : PaymentState) → state_of_code (payment_state_code p) ≡ p
state_of_code-code authorized = refl
state_of_code-code captured = refl
state_of_code-code voided = refl
state_of_code-code refund_pending = refl
state_of_code-code refunded = refl
state_of_code-code reconciled = refl
state_of_code-code failed = refl

eq_payment_state_sound : (a b : PaymentState) → eq_payment_state a b ≡ true → a ≡ b
eq_payment_state_sound a b h =
    sym (state_of_code-code a)
    ∙ ap state_of_code (==_sound (payment_state_code a) (payment_state_code b) h)
    ∙ state_of_code-code b

eq_payment_state_refl : (a b : PaymentState) → a ≡ b → eq_payment_state a b ≡ true
eq_payment_state_refl a b e =
    subst (λ c. eq_payment_state a c ≡ true) e (==_refl (payment_state_code a))

compare_states-nil :
    (txn : String) (ours theirs : Option PaymentState) (rest : List PaymentMismatch)
    → (compare_states txn ours theirs rest ≡ []) ↔ (Agree ours theirs × (rest ≡ []))
compare_states-nil txn none theirs rest = (λ h. (tt, h), λ h. h.1)
compare_states-nil txn (some a) none rest = (λ h. (tt, h), λ h. h.1)
compare_states-nil txn (some a) (some b) rest = elim (Bool-cases (eq_payment_state a b)) [
  | inl same ↦ (λ h. (eq_payment_state_sound a b same, rw same at h), λ h. rw same (h.1))
  | inr other ↦ (λ h. absurd cc, λ h. let same = eq_payment_state_refl a b h.0 in absurd cc)
]

disagreements-nil :
    (runner : Runner) (txns : List String) (s : Stores) (moment : ℕ)
    → (disagreements runner s moment txns ≡ []) ↔ AllAgree runner s moment txns
disagreements-nil runner [] s moment = (λ h. tt, λ h. refl)
disagreements-nil runner (t ∷ ts) s moment =
    let rest = disagreements-nil runner ts s (moment + 1) in
    let here =
      compare_states-nil t (lookup t s.payment_states) (runner.providers.get_payment_state moment t)
        (disagreements runner s (moment + 1) ts) in
    (λ h. ((here.0 h).0, rest.0 (here.0 h).1), λ h. here.1 (h.0, rest.1 h.1))

abbrev listed : Result RunnerError ReconciliationReport → List PaymentMismatch
listed (ok report) = report.mismatches
listed (err e) = []

-- A reconciliation reports no mismatch exactly where every transaction listed agrees with the
-- provider, asked once for each in turn; a transaction that one side does not know counts as agreed.
pub run_reconciliation-AllAgree :
    (runner : Runner) (txns : List String) (s : Stores)
    → ((run_reconciliation runner txns s).0 ≡ ok (record { mismatches = [] }))
      ↔ AllAgree runner s s.moment txns
unfolding run_reconciliation ◌>>=◌ pure
run_reconciliation-AllAgree runner txns s = rw (mismatches-disagreements runner txns s) (
  λ h. (disagreements-nil runner txns s s.moment).0 (ap listed h),
  λ h. rw ((disagreements-nil runner txns s s.moment).1 h) refl,
)
