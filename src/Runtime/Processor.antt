-- ===== src/Runtime/Processor.antt =====
-- crates/orchestrator-runtime/src/outbox_processor.rs: one batch, the drain at shutdown, and the
-- pause before a retry. Durations are in nanoseconds. Metrics and logs are left out, and the loop
-- of `run`, which only repeats the batch until the shutdown and then drains, is left out too.
pub mod Drained
use commerce_orchestrator_ap.Prelude.{
  ℕ, zero, suc, ◌+◌, ◌-◌, ◌*◌, ◌^◌, Bool, true, false, Option, List, [], ◌∷◌, ◌++◌, length, min,
  ltb, ◌==◌, if◌then◌else◌,
}
use commerce_orchestrator_ap.Runtime.Result.{Result, ok, err}
use commerce_orchestrator_ap.Runtime.Monad.{M, Stores, Runner, RunnerError}
use commerce_orchestrator_ap.Runtime.Runner.Delivery.{
  OutboxOutcome, idle, delivered, retrying, dead_lettered, process_outbox_once_reporting,
}

pub record OutboxProcessorConfig : Type 0 where
  pub interval : ℕ
  pub batch_size : ℕ
  pub max_attempts : ℕ
  pub drain_timeout : ℕ
  pub retry_backoff : ℕ
  pub max_retry_backoff : ℕ

abbrev pub default_processor_config : OutboxProcessorConfig
default_processor_config = record {
  interval = 500000000;
  batch_size = 32;
  max_attempts = 5;
  drain_timeout = 10000000000;
  retry_backoff = 500000000;
  max_retry_backoff = 30000000000;
}

-- `Duration::MAX`, and `saturating_mul` below it
abbrev pub duration_max : ℕ
duration_max = 18446744073709551616 * 1000000000 - 1

unfoldable pub retry_delay : OutboxProcessorConfig → ℕ → ℕ
retry_delay config attempts =
    min (min (config.retry_backoff * 2 ^ min (attempts - 1) 16) duration_max)
      config.max_retry_backoff

-- What a batch has handled, and the pauses that it made.
abbrev pub Tally : Type 0
Tally = ℕ × List ℕ

abbrev pub count : Tally → Tally
count (n, pauses) = (n + 1, pauses)

abbrev pub paused : ℕ → Tally → Tally
paused d (n, pauses) = (n + 1, d ∷ pauses)

module _ (runner : Runner) (config : OutboxProcessorConfig) where
  -- What a pass leads to: the end of the batch, or more.
  abbrev pub next_pass :
      Result RunnerError OutboxOutcome → Stores → (Stores → Tally × Stores) → Tally × Stores
  next_pass (err e) s more = ((0, []), s)
  next_pass (ok idle) s more = ((0, []), s)
  next_pass (ok delivered) s more = let (t, u) = more s in (count t, u)
  next_pass (ok dead_lettered) s more = let (t, u) = more s in (count t, u)
  next_pass (ok (retrying attempts)) s more =
      let (t, u) = more s in (paused (retry_delay config attempts) t, u)

  -- `for _ in 0..batch_size`
  unfoldable pub passes : ℕ → Stores → Tally × Stores
  passes zero s = ((0, []), s)
  passes (suc n) s =
      let (r, t) = process_outbox_once_reporting runner config.max_attempts s in
      let more = next_pass r t (passes n) in if length s.outbox == 0 then ((0, []), s) else more

  unfoldable pub process_batch : Stores → Tally × Stores
  process_batch = passes config.batch_size

  -- `while now() < deadline`, on fuel; the clock is read before each batch.
  unfoldable pub drain_until : ℕ → ℕ → Stores → ℕ × Stores
  drain_until zero deadline s = (0, s)
  drain_until (suc fuel) deadline s =
      let asked : Stores = record s { moment = s.moment + 1 } in
      let ((handled, pauses), t) = process_batch asked in
      let (rest, u) = drain_until fuel deadline t in
      if ltb (runner.world.instant s.moment) deadline
      then (if handled == 0 then (0, t) else (handled + rest, u))
      else (0, asked)

  unfoldable pub drain : ℕ → Stores → ℕ × Stores
  drain fuel s =
      drain_until fuel (runner.world.instant s.moment + config.drain_timeout)
        (record s { moment = s.moment + 1 })
