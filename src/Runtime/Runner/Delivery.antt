-- ===== src/Runtime/Runner/Delivery.antt =====
-- The outbox of crates/orchestrator-runtime/src/runner.rs (process_outbox_once_reporting,
-- replay_from_dead_letter, accept_incoming_event_once, record_mandate), over the default
-- claim / ack / release of crates/orchestrator-runtime/src/store_traits.rs.
pub mod Queue
pub mod Dedupe
use commerce_orchestrator_ap.Prelude.{
  ℕ, ◌+◌, ◌%◌, String, Bool, true, false, not, Option, none, some, List, [], ◌∷◌, ltb,
  if◌then◌else◌,
}
use commerce_orchestrator_ap.Prelude.Int.{ℤ, pos, u32_mod}
use commerce_orchestrator_ap.Runtime.Result
use commerce_orchestrator_ap.Runtime.Stores.Effects
use commerce_orchestrator_ap.Runtime.Stores.Effects.{OutboxMessage}
use commerce_orchestrator_ap.Runtime.Monad.{M, Runner, ◌>>=◌, ◌>>◌, pure, modify, ask}

pub data OutboxOutcome : Type 0 where
  idle delivered : OutboxOutcome
  retrying : ℕ → OutboxOutcome
  dead_lettered : OutboxOutcome

-- The default `claim` is `dequeue`.
unfoldable pub claim : M (Option OutboxMessage)
claim s =
    let (found, rest) = Effects.dequeue s.outbox in (Result.ok found, record s { outbox = rest })

-- The default `ack` does nothing.
unfoldable pub ack : String → M (Unit {0})
unfolding pure
ack message_id = pure tt

-- The default `release` is `enqueue`.
unfoldable pub release : OutboxMessage → M (Unit {0})
unfolding modify
release message = modify λ s. record s { outbox = Effects.enqueue message s.outbox }

unfoldable pub put_dead_letter : OutboxMessage → M (Unit {0})
unfolding modify
put_dead_letter message = modify λ s. record s { dead_letter = Effects.put message s.dead_letter }

unfoldable pub take_dead_letter : String → M (Option OutboxMessage)
take_dead_letter message_id s =
    let (found, rest) = Effects.take message_id s.dead_letter in
    (Result.ok found, record s { dead_letter = rest })

-- `attempts += 1` on a `u32`
abbrev pub failed_once : OutboxMessage → OutboxMessage
failed_once msg = record msg { attempts = (msg.attempts + 1) % u32_mod }

-- What a failed delivery leads to.
unfoldable pub give_back : ℕ → OutboxMessage → M OutboxOutcome
unfolding ◌>>=◌ pure put_dead_letter ack release
give_back max_attempts msg =
    if ltb max_attempts msg.attempts
    then (do put_dead_letter msg; ack msg.id; pure dead_lettered)
    else (do release msg; pure (retrying msg.attempts))

module _ (runner : Runner) where
  -- `deliver(&msg).await.is_err()`; without a deliverer every delivery fails.
  abbrev pub attempt : Option (ℕ → OutboxMessage → Bool) → OutboxMessage → M Bool
  attempt none msg = pure true
  attempt (some deliver) msg = ask λ n. not (deliver n msg)

  unfoldable pub settle_delivery : ℕ → OutboxMessage → Bool → M OutboxOutcome
  unfolding give_back
  settle_delivery max_attempts msg true = give_back max_attempts (failed_once msg)
  settle_delivery max_attempts msg false = do ack msg.id; pure delivered

  unfoldable pub process_claimed : ℕ → Option OutboxMessage → M OutboxOutcome
  unfolding settle_delivery
  process_claimed max_attempts none = pure idle
  process_claimed max_attempts (some msg) = do
    delivery_failed ← attempt runner.outbox_deliverer msg
    settle_delivery max_attempts msg delivery_failed

  unfoldable pub process_outbox_once_reporting : ℕ → M OutboxOutcome
  unfolding process_claimed claim
  process_outbox_once_reporting max_attempts = do found ← claim; process_claimed max_attempts found

  abbrev pub requeue : Option OutboxMessage → M Bool
  requeue none = pure false
  requeue (some msg) = do release (record msg { attempts = 0 }); pure true

  unfoldable pub replay_from_dead_letter : String → M Bool
  unfolding take_dead_letter
  replay_from_dead_letter message_id = do found ← take_dead_letter message_id; requeue found

  unfoldable pub accept_incoming_event_once : String → M Bool
  accept_incoming_event_once message_id s =
      let (new, seen) = Effects.accept_once message_id s.inbox in
      (Result.ok new, record s { inbox = seen })

  abbrev record_at : ℕ → String → ℤ → M Bool
  record_at now mandate_id expires_at s =
      let (new, seen) = Effects.record_mandate (pos now) mandate_id expires_at s.mandates in
      (Result.ok new, record s { mandates = seen })

  unfoldable pub record_mandate : String → ℤ → M Bool
  record_mandate mandate_id expires_at = do
    now ← ask runner.world.utc
    record_at now mandate_id expires_at
