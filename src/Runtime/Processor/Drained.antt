-- ===== src/Runtime/Processor/Drained.antt =====
-- What a batch and a drain leave, in crates/orchestrator-runtime/src/outbox_processor.rs.
use commerce_orchestrator_ap.Prelude.{
  ℕ, zero, suc, ◌+◌, ◌<◌, ◌≡◌, refl, ap, ◌∙◌, Bool, true, false, some, List, [], ◌∷◌, length, ltb,
  ◌==◌, arith,
}
use commerce_orchestrator_ap.Runtime.Result.{ok}
use commerce_orchestrator_ap.Runtime.Stores.Effects
use commerce_orchestrator_ap.Runtime.Stores.Effects.{OutboxMessage}
use commerce_orchestrator_ap.Runtime.Monad.{Stores, Runner, ◌>>=◌, pure, ask}
use commerce_orchestrator_ap.Runtime.Runner.Delivery.{
  delivered, claim, ack, settle_delivery, process_claimed, process_outbox_once_reporting,
}
use commerce_orchestrator_ap.Runtime.Processor.{
  OutboxProcessorConfig, passes, process_batch, drain_until, drain,
}

-- A deliverer that takes every message.
abbrev pub TakesAll : Runner → Type 0
TakesAll runner =
    (deliver : ℕ → OutboxMessage → Bool) × ((runner.outbox_deliverer ≡ some deliver)
      × ((n : ℕ) (m : OutboxMessage) → deliver n m ≡ true))

abbrev pub skip : {A : Type 0} → ℕ → List A → List A
skip zero xs = xs
skip (suc n) [] = []
skip (suc n) (x ∷ xs) = skip n xs

-- How many that drops.
abbrev taken : {A : Type 0} → ℕ → List A → ℕ
taken zero xs = 0
taken (suc n) [] = 0
taken (suc n) (x ∷ xs) = taken n xs + 1

length-skip : {A : Type 0} (n : ℕ) (xs : List A) → taken n xs + length (skip n xs) ≡ length xs
length-skip zero xs = omega arith
length-skip (suc n) [] = omega arith
length-skip (suc n) (x ∷ xs) = omega (arith, length-skip n xs)

add_zero : (n : ℕ) → n ≡ n + 0
add_zero n = omega arith

add_later : (n k : ℕ) → n + 1 + k ≡ n + (k + 1)
add_later n k = omega arith

not_empty : (n : ℕ) → (suc n == 0) ≡ false
not_empty n = ground arith

counted_some : (n : ℕ) → (n + 1 == 0) ≡ false
counted_some n = ground arith

module _ (runner : Runner) (config : OutboxProcessorConfig) (takes : TakesAll runner) where
  -- A pass over a queue that is not empty.
  pass-delivered :
      (s : Stores) (msg : OutboxMessage) (rest : List OutboxMessage)
      → process_outbox_once_reporting runner config.max_attempts (record s { outbox = msg ∷ rest })
        ≡ (ok delivered, record s { outbox = rest; moment = s.moment + 1 })
  unfolding process_outbox_once_reporting claim process_claimed settle_delivery ack ◌>>=◌ pure ask
      Effects.dequeue
  pass-delivered s msg rest = rw (takes.1.0, takes.1.1 s.moment msg) refl

  -- The stores once a batch is through.
  abbrev left_by : ℕ → Stores → List OutboxMessage → Stores
  left_by n s queue = record s { outbox = skip n queue; moment = s.moment + taken n queue }

  -- A batch delivers the oldest messages, as many as it is to, and makes no pause.
  passes-left_by :
      (n : ℕ) (s : Stores) (queue : List OutboxMessage)
      → passes runner config n (record s { outbox = queue })
        ≡ ((taken n queue, []), left_by n s queue)
  unfolding passes
  passes-left_by zero s queue =
      ap (λ m. ((0, []), record s { outbox = queue; moment = m })) (add_zero s.moment)
  passes-left_by (suc n) s [] =
      ap (λ m. ((0, []), record s { outbox = []; moment = m })) (add_zero s.moment)
  passes-left_by (suc n) s (msg ∷ rest) =
      rw
        (
          pass-delivered s msg rest,
          passes-left_by n (record s { moment = s.moment + 1 }) rest,
          not_empty (length rest),
        )
        (ap (λ m. ((taken n rest + 1, []), record s { outbox = skip n rest; moment = m }))
          (add_later s.moment (taken n rest)))

  module _ (deadline : ℕ) (in_time : (n : ℕ) → ltb (runner.world.instant n) deadline ≡ true) (b : ℕ)
      (sized : config.batch_size ≡ suc b) where
    batch-left_by :
        (s : Stores) (queue : List OutboxMessage)
        → process_batch runner config (record s { outbox = queue })
          ≡ ((taken (suc b) queue, []), left_by (suc b) s queue)
    unfolding process_batch
    batch-left_by s queue =
        ap (λ k. passes runner config k (record s { outbox = queue })) sized
        ∙ passes-left_by (suc b) s queue

    drain_until-empties :
        (fuel : ℕ) (s : Stores) (queue : List OutboxMessage)
        → length queue < fuel
        → let (handled, t) =
            drain_until runner config fuel deadline (record s { outbox = queue }) in
          (handled ≡ length queue) × (t.outbox ≡ [])
    unfolding drain_until
    drain_until-empties zero s queue h = absurd (omega arith)
    drain_until-empties (suc fuel) s [] h =
        rw (in_time s.moment, batch-left_by (record s { moment = s.moment + 1 }) []) (refl, refl)
    drain_until-empties (suc fuel) s (msg ∷ rest) h =
        let u = left_by (suc b) (record s { moment = s.moment + 1 }) (msg ∷ rest) in
        let (counted, empty) =
          drain_until-empties fuel u (skip b rest) (omega (arith, length-skip b rest)) in
        rw
          (
            in_time s.moment,
            batch-left_by (record s { moment = s.moment + 1 }) (msg ∷ rest),
            counted_some (taken b rest),
          )
          (omega (arith, counted, length-skip b rest), empty)

-- Where the deliverer takes every message and the clock stays short of the deadline, the drain ends
-- with an empty outbox and has handled each of its messages, on any fuel above their number.
pub drain-empties :
    (runner : Runner) (config : OutboxProcessorConfig) (b fuel : ℕ) (s : Stores)
    → TakesAll runner
    → config.batch_size ≡ suc b
    → ((n : ℕ)
        → ltb (runner.world.instant n) (runner.world.instant s.moment + config.drain_timeout)
          ≡ true)
    → length s.outbox < fuel
    → let (handled, t) = drain runner config fuel s in (handled ≡ length s.outbox) × (t.outbox ≡ [])
unfolding drain
drain-empties runner config b fuel s takes sized in_time h =
    drain_until-empties runner config takes (runner.world.instant s.moment + config.drain_timeout)
      in_time b sized fuel (record s { moment = s.moment + 1 }) s.outbox h
