-- ===== src/Examples/Queues.antt =====
-- Runs of the outbox, the inbox, the reservations and a reconciliation.
use commerce_orchestrator_ap.Prelude.{◌≡◌, ◌↔◌, refl, true, false, some, [], ◌∷◌, arith}
use commerce_orchestrator_ap.Prelude.Eq.{string_eq}
use commerce_orchestrator_ap.Prelude.Dict.{lookup, remove}
use commerce_orchestrator_ap.Core.Contract.{captured, voided, refunded}
use commerce_orchestrator_ap.Runtime.Result.{ok}
use commerce_orchestrator_ap.Runtime.Stores.Effects
use commerce_orchestrator_ap.Runtime.Stores.Inventory.{Reservations, reserved, sweep_expired}
use commerce_orchestrator_ap.Runtime.Stores.Inventory.Lifecycle.{Swept, sweep_expired-Swept}
use commerce_orchestrator_ap.Runtime.Monad.{Stores}
use commerce_orchestrator_ap.Runtime.Runner.Delivery.{
  process_outbox_once_reporting, replay_from_dead_letter,
}
use commerce_orchestrator_ap.Runtime.Runner.Delivery.Queue.{
  report, fine, pass_of, passes, report_replay, is_some, with_renewed, process_outbox-pass_of,
  passes-dead_letter, replay-with_renewed,
}
use commerce_orchestrator_ap.Runtime.Runner.Delivery.Dedupe.{after_all, accept_once-after_all}
use commerce_orchestrator_ap.Core.Contract.{PaymentLifecycleRequest}
use commerce_orchestrator_ap.Prelude.Int.{pos}
use commerce_orchestrator_ap.Runtime.Monad.{capture, void, refund}
use commerce_orchestrator_ap.Runtime.Runner.Payments.Lifecycle.{Operated, capture_payment-Operated}
use commerce_orchestrator_ap.Runtime.Runner.Payments.{
  run_reconciliation, capture_payment, void_payment, refund_payment,
}
use commerce_orchestrator_ap.Runtime.Runner.Payments.Reconciliation.{
  AllAgree, run_reconciliation-AllAgree,
}
use commerce_orchestrator_ap.Examples.Samples.{shop, hello, empty_stores}

-- One message waits.
abbrev waiting : Stores
waiting = record empty_stores { outbox = hello ∷ [] }

process_outbox-pass_of_example :
    report (process_outbox_once_reporting shop 2 waiting) ≡ fine (pass_of true 2 hello [] [])
process_outbox-pass_of_example = process_outbox-pass_of shop 2 hello [] empty_stores

passes-dead_letter_example :
    let after = passes shop 2 3 waiting in
    (after.outbox ≡ []) × (lookup "msg" after.dead_letter ≡ some (record hello { attempts = 3 }))
passes-dead_letter_example = passes-dead_letter shop 2 2 hello waiting refl refl (omega arith) refl

-- The message is a dead letter.
abbrev dead : Stores
dead = record empty_stores { dead_letter = ("msg", record hello { attempts = 3 }) ∷ [] }

replay-with_renewed_example : report_replay (replay_from_dead_letter shop "msg" dead) ≡ (
  ok (is_some (lookup "msg" dead.dead_letter)),
  (with_renewed (lookup "msg" dead.dead_letter) [], remove "msg" dead.dead_letter),
)
replay-with_renewed_example = replay-with_renewed shop "msg" dead

accept_once-after_all_example :
    let later = after_all ("b" ∷ "c" ∷ []) (Effects.accept_once "a" []).1 in
    Effects.accept_once "a" later ≡ (false, later)
accept_once-after_all_example = accept_once-after_all "a" ("b" ∷ "c" ∷ []) []

-- Two carts hold a mug each, one of them until 5 and one until 9.
abbrev held : Reservations
held =
    (
      (1, "mug"),
      record { cart_id = 1; sku = "mug"; quantity = 1; state = reserved; lease_until = 5 },
    )
    ∷ (
      (2, "mug"),
      record { cart_id = 2; sku = "mug"; quantity = 1; state = reserved; lease_until = 9 },
    )
    ∷ []

sweep_expired-Swept_example : Swept 6 held (sweep_expired 6 held).1 (sweep_expired 6 held).0
sweep_expired-Swept_example = sweep_expired-Swept 6 held

-- A payment that the provider does not know.
abbrev charged : Stores
charged = record empty_stores { payment_states = ("txn", captured) ∷ [] }

run_reconciliation-AllAgree_example :
    ((run_reconciliation shop ("txn" ∷ []) charged).0 ≡ ok (record { mismatches = [] }))
    ↔ AllAgree shop charged 0 ("txn" ∷ [])
run_reconciliation-AllAgree_example = run_reconciliation-AllAgree shop ("txn" ∷ []) charged

abbrev capturing : PaymentLifecycleRequest
capturing = record {
  tenant_id = "t";
  merchant_id = "m";
  transaction_id = "txn";
  amount_minor = pos 2100;
  idempotency_key = "k";
}

capture_payment-Operated_example :
    Operated
      (capture capturing)
      (shop.providers.capture 0 capturing)
      captured
      capturing
      empty_stores
      (capture_payment shop capturing empty_stores)
    × (Operated
          (void capturing)
          (shop.providers.void 0 capturing)
          voided
          capturing
          empty_stores
          (void_payment shop capturing empty_stores)
        × Operated
            (refund capturing)
            (shop.providers.refund 0 capturing)
            refunded
            capturing
            empty_stores
            (refund_payment shop capturing empty_stores))
capture_payment-Operated_example = capture_payment-Operated shop capturing empty_stores
