-- ===== src/Runtime/Runner/Delivery/Queue.antt =====
-- What becomes of the messages of the outbox in crates/orchestrator-runtime/src/runner.rs.
use commerce_orchestrator_ap.Prelude.{
  ◌%◌, ℕ, zero, suc, ◌+◌, ◌≡◌, refl, sym, ap, ◌∙◌, subst, Bool, true, false, not, Option, none,
  some, List, [], ◌∷◌, ◌++◌, ltb, if◌then◌else◌, arith, ◌<◌, String,
}
use commerce_orchestrator_ap.Prelude.Eq.{string_eq}
use commerce_orchestrator_ap.Prelude.Int.{u32_mod}
use commerce_orchestrator_ap.Prelude.Dict.{lookup, insert, remove, lookup-insert_self}
use commerce_orchestrator_ap.Runtime.Result
use commerce_orchestrator_ap.Runtime.Stores.Effects
use commerce_orchestrator_ap.Runtime.Stores.Effects.{OutboxMessage}
use commerce_orchestrator_ap.Runtime.Monad.{Stores, Runner, RunnerError, ◌>>=◌, pure, modify, ask}
use commerce_orchestrator_ap.Runtime.Runner.Delivery.{
  OutboxOutcome, delivered, retrying, dead_lettered, claim, ack, release, put_dead_letter,
  take_dead_letter, give_back, attempt, settle_delivery, process_claimed,
  process_outbox_once_reporting, replay_from_dead_letter, requeue,
}

abbrev unsent : Option (ℕ → OutboxMessage → Bool) → ℕ → OutboxMessage → Bool
unsent none moment msg = true
unsent (some deliver) moment msg = not (deliver moment msg)

-- What one pass is to report, and the outbox and the dead letters that it is to leave, told without
-- the steps of the code.
abbrev pub pass_of :
    Bool
    → ℕ
    → OutboxMessage
    → List OutboxMessage
    → List (String × OutboxMessage)
    → OutboxOutcome × (List OutboxMessage × List (String × OutboxMessage))
pass_of refused max_attempts msg rest dead =
    let again = record msg { attempts = (msg.attempts + 1) % u32_mod } in
    if refused
    then (if ltb max_attempts again.attempts
        then (dead_lettered, (rest, insert msg.id again dead))
        else (retrying again.attempts, (rest ++ again ∷ [], dead)))
    else (delivered, (rest, dead))

abbrev pub report :
    Result.Result RunnerError OutboxOutcome × Stores
    → Result.Result RunnerError OutboxOutcome × (List OutboxMessage × List (String × OutboxMessage))
report (r, s) = (r, (s.outbox, s.dead_letter))

abbrev pub fine :
    OutboxOutcome × (List OutboxMessage × List (String × OutboxMessage))
    → Result.Result RunnerError OutboxOutcome × (List OutboxMessage × List (String × OutboxMessage))
fine (o, queues) = (Result.ok o, queues)

module _ (runner : Runner) (max_attempts : ℕ) where
  settle-pass_of :
      (msg : OutboxMessage) (refused : Bool) (s : Stores)
      → report (settle_delivery runner max_attempts msg refused s)
        ≡ fine (pass_of refused max_attempts msg s.outbox s.dead_letter)
  unfolding ◌>>=◌ pure modify ack release put_dead_letter give_back settle_delivery Effects.enqueue
      Effects.put
  settle-pass_of msg true s = ground arith
  settle-pass_of msg false s = refl

  attempt-pass_of :
      (d : Option (ℕ → OutboxMessage → Bool)) (msg : OutboxMessage) (s : Stores)
      → report ((attempt runner d msg >>= settle_delivery runner max_attempts msg) s)
        ≡ fine (pass_of (unsent d s.moment msg) max_attempts msg s.outbox s.dead_letter)
  unfolding ◌>>=◌ pure ask
  attempt-pass_of none msg s = settle-pass_of msg true s
  attempt-pass_of (some deliver) msg s =
      settle-pass_of msg (not (deliver s.moment msg)) (record s { moment = s.moment + 1 })

  -- One pass of the outbox takes its oldest message. A delivered message is gone; a refused one goes
  -- to the back of the queue with one more attempt (a u32) while its attempts are then at most `max_attempts`, and
  -- to the dead letters otherwise. Without a deliverer every message is refused.
  pub process_outbox-pass_of :
      (msg : OutboxMessage) (rest : List OutboxMessage) (s : Stores)
      → report
          (process_outbox_once_reporting runner max_attempts (record s { outbox = msg ∷ rest }))
        ≡ fine (
            pass_of
              (unsent runner.outbox_deliverer s.moment msg)
              max_attempts
              msg
              rest
              s.dead_letter)
  unfolding process_outbox_once_reporting ◌>>=◌ claim Effects.dequeue process_claimed
  process_outbox-pass_of msg rest s =
      attempt-pass_of runner.outbox_deliverer msg (record s { outbox = rest })

  -- `n` runs of the outbox, one after the other.
  abbrev pub passes : ℕ → Stores → Stores
  passes zero s = s
  passes (suc n) s = passes n (process_outbox_once_reporting runner max_attempts s).1

  refused_alone :
      (msg : OutboxMessage) (s : Stores)
      → runner.outbox_deliverer ≡ none
      → s.outbox ≡ msg ∷ []
      → report (process_outbox_once_reporting runner max_attempts s)
        ≡ fine (pass_of true max_attempts msg [] s.dead_letter)
  refused_alone msg s e o =
      subst
        (λ t.
          report (process_outbox_once_reporting runner max_attempts t)
          ≡ fine (pass_of true max_attempts msg [] s.dead_letter))
        (ap (λ q. record s { outbox = q }) (sym o))
        (process_outbox-pass_of msg [] s
          ∙ ap (λ d. fine (pass_of (unsent d s.moment msg) max_attempts msg [] s.dead_letter)) e)

  -- Without a deliverer, a message alone in the outbox is retried until its attempts pass
  -- `max_attempts`, and is then a dead letter with `max_attempts + 1` attempts and out of the queue:
  -- with `k` attempts left before the limit, `k + 1` passes are enough. So it is the failure after
  -- the first `max_attempts` that makes it a dead letter.
  pub passes-dead_letter :
      (k : ℕ) (msg : OutboxMessage) (s : Stores)
      → runner.outbox_deliverer ≡ none
      → msg.attempts + k ≡ max_attempts
      → max_attempts + 1 < u32_mod
      → s.outbox ≡ msg ∷ []
      → let after = passes (suc k) s in
        (after.outbox ≡ [])
        × (lookup msg.id after.dead_letter ≡ some (record msg { attempts = max_attempts + 1 }))
  passes-dead_letter zero msg s e left bound o =
      let p = refused_alone msg s e o in
      let last : pass_of true max_attempts msg [] s.dead_letter ≡ (
        dead_lettered,
        ([], insert msg.id (record msg { attempts = max_attempts + 1 }) s.dead_letter),
      ) =
        ground arith in
      (
        ap (λ r. r.1.0) (p ∙ ap fine last),
        ap (λ r. lookup msg.id r.1.1) (p ∙ ap fine last)
            ∙ lookup-insert_self msg.id _ s.dead_letter,
      )
  passes-dead_letter (suc k) msg s e left bound o =
      let next : pass_of true max_attempts msg [] s.dead_letter ≡ (
        retrying (msg.attempts + 1),
        (record msg { attempts = msg.attempts + 1 } ∷ [], s.dead_letter),
      ) =
        ground arith in
      passes-dead_letter k (record msg { attempts = msg.attempts + 1 })
        (process_outbox_once_reporting runner max_attempts s).1 e (omega arith) bound
        (ap (λ r. r.1.0) (refused_alone msg s e o ∙ ap fine next))

abbrev pub report_replay :
    Result.Result RunnerError Bool × Stores
    → Result.Result RunnerError Bool × (List OutboxMessage × List (String × OutboxMessage))
report_replay (r, s) = (r, (s.outbox, s.dead_letter))

abbrev pub is_some : Option OutboxMessage → Bool
is_some none = false
is_some (some _) = true

abbrev pub with_renewed : Option OutboxMessage → List OutboxMessage → List OutboxMessage
with_renewed none queue = queue
with_renewed (some msg) queue = queue ++ (record msg { attempts = 0 }) ∷ []

requeue-with_renewed :
    (runner : Runner) (found : Option OutboxMessage) (s : Stores)
    → report_replay (requeue runner found s)
      ≡ (Result.ok (is_some found), (with_renewed found s.outbox, s.dead_letter))
unfolding ◌>>=◌ pure modify release Effects.enqueue
requeue-with_renewed runner none s = refl
requeue-with_renewed runner (some msg) s = refl

-- Sending a dead letter round again takes it from the dead letters and puts it, with no attempts
-- counted, at the back of the outbox; an id that no dead letter has adds nothing to the outbox, and
-- the answer says so.
pub replay-with_renewed :
    (runner : Runner) (id : String) (s : Stores)
    → report_replay (replay_from_dead_letter runner id s) ≡ (
      Result.ok (is_some (lookup id s.dead_letter)),
      (with_renewed (lookup id s.dead_letter) s.outbox, remove id s.dead_letter),
    )
unfolding replay_from_dead_letter ◌>>=◌ take_dead_letter Effects.take
replay-with_renewed runner id s =
    requeue-with_renewed runner (lookup id s.dead_letter)
      (record s { dead_letter = remove id s.dead_letter })
