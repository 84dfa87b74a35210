-- ===== src/Adapters/Circuit/Threshold.antt =====
-- How many failures open the breaker.
use commerce_orchestrator_ap.Prelude.{
  ℕ, ◌+◌, ◌≡◌, ◌<◌, refl, ap, true, List, [], ◌∷◌, arith, String, length,
}
use commerce_orchestrator_ap.Prelude.Int.{u32_mod}
use commerce_orchestrator_ap.Adapters.Circuit.{
  CircuitBreaker, CircuitBreakerConfig, Internal, on_success, on_failure,
}

-- Failures at these times, one after the other.
abbrev pub fail_at : CircuitBreaker → List ℕ → CircuitBreaker
fail_at b [] = b
fail_at b (t ∷ ts) = fail_at (on_failure t b) ts

module _ (provider : String) (config : CircuitBreakerConfig) (enabled : config.enabled ≡ true)
    (is_u32 : config.failure_threshold < u32_mod) where
  abbrev with_failures : ℕ → CircuitBreaker
  with_failures n = record { provider = provider; config = config; state = Internal.closed n }

  one_failure :
      (t n : ℕ)
      → n + 1 < config.failure_threshold
      → on_failure t (with_failures n) ≡ with_failures (n + 1)
  unfolding on_failure
  one_failure t n h = ground arith

  below_threshold :
      (ts : List ℕ) (n m : ℕ)
      → n + length ts ≡ m
      → m < config.failure_threshold
      → fail_at (with_failures n) ts ≡ with_failures m
  below_threshold [] n m e h = let same : n ≡ m = omega arith in ap with_failures same
  below_threshold (t ∷ ts) n m e h =
      rw (one_failure t n (omega arith)) (below_threshold ts (n + 1) m (omega arith) h)

  last_failure :
      (t n : ℕ)
      → n + 1 ≡ config.failure_threshold
      → (on_failure t (with_failures n)).state ≡ Internal.opened (t + config.open_duration)
  unfolding on_failure
  last_failure t n h = ground arith

-- After a success, exactly the failure that makes `failure_threshold` of them in a row opens the
-- breaker, for `open_duration` from then: with one failure fewer it is still closed.
pub fail_at-opened :
    (b : CircuitBreaker) (ts : List ℕ) (t : ℕ)
    → b.config.enabled ≡ true
    → b.config.failure_threshold < u32_mod
    → length ts + 1 ≡ b.config.failure_threshold
    → let before = fail_at (on_success b) ts in
      (before.state ≡ Internal.closed (length ts))
      × ((on_failure t before).state ≡ Internal.opened (t + b.config.open_duration))
unfolding on_success
fail_at-opened b ts t enabled is_u32 n =
    let below =
      below_threshold b.provider b.config enabled is_u32 ts 0 (length ts) (omega arith)
        (omega arith) in
    let start : on_success b ≡ with_failures b.provider b.config enabled is_u32 0 = ground arith in
    rw (start, below) (refl, last_failure b.provider b.config enabled is_u32 t (length ts) n)
