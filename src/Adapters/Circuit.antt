-- ===== src/Adapters/Circuit.antt =====
-- The circuit breaker of crates/integration-adapters/src/circuit.rs. A method runs under the lock
-- of the state, so it is a function of the state and of what the clock shows, in nanoseconds.
pub mod Windows
pub mod Threshold
use commerce_orchestrator_ap.Prelude.{
  ℕ, ◌+◌, ◌-◌, String, Bool, true, false, ◌&&◌, ◌||◌, ◌==◌, ltb, leb, min, if◌then◌else◌,
}
use commerce_orchestrator_ap.Prelude.Int.{u32_mod}
use commerce_orchestrator_ap.Runtime.Result.{Result, ok, err}
use commerce_orchestrator_ap.Adapters.Error.{AdapterError, circuit_open, TransportError}

pub data CircuitState : Type 0 where
  closed opened half_open : CircuitState

pub record CircuitBreakerConfig : Type 0 where
  pub enabled : Bool
  pub failure_threshold : ℕ  -- u32
  pub open_duration : ℕ
  pub probe_timeout : ℕ

-- `CircuitBreakerConfig::default`
abbrev pub default_breaker_config : CircuitBreakerConfig
default_breaker_config = record {
  enabled = true;
  failure_threshold = 5;
  open_duration = 30000000000;
  probe_timeout = 60000000000;
}

pub data Internal : Type 0 where
  -- consecutive_failures, a u32
  closed : ℕ → Internal
  -- until
  opened half_open : ℕ → Internal

pub record CircuitBreaker : Type 0 where
  pub provider : String
  pub config : CircuitBreakerConfig
  pub state : Internal

-- `CircuitBreaker::new`
abbrev pub new_breaker : String → CircuitBreakerConfig → CircuitBreaker
new_breaker provider config = record {
  provider = provider;
  config = config;
  state = Internal.closed 0;
}

-- `CircuitBreaker::state`
unfoldable pub observe : ℕ → Internal → CircuitState
observe now (Internal.closed failures) = CircuitState.closed
observe now (Internal.half_open until) = CircuitState.half_open
observe now (Internal.opened until) =
    if leb until now then CircuitState.half_open else CircuitState.opened

-- The match of `acquire`: whether the call is admitted, and the state that is left.
unfoldable pub admit : CircuitBreakerConfig → ℕ → Internal → Bool × Internal
admit config now (Internal.closed failures) = (true, Internal.closed failures)
admit config now (Internal.half_open until) =
    if leb until now
    then (true, Internal.half_open (now + config.probe_timeout))
    else (false, Internal.half_open until)
admit config now (Internal.opened until) =
    if leb until now
    then (true, Internal.half_open (now + config.probe_timeout))
    else (false, Internal.opened until)

unfoldable pub acquire : ℕ → CircuitBreaker → Result AdapterError (Unit {0}) × CircuitBreaker
unfolding admit
acquire now b =
    let (admitted, state) = admit b.config now b.state in
    if b.config.enabled
    then (if admitted then ok tt else err (circuit_open b.provider), record b { state = state })
    else (ok tt, b)

unfoldable pub on_success : CircuitBreaker → CircuitBreaker
on_success b = if b.config.enabled then record b { state = Internal.closed 0 } else b

-- `saturating_add(1)` on a `u32`
abbrev pub one_more : ℕ → ℕ
one_more failures = min (failures + 1) (u32_mod - 1)

-- The match of `on_failure`.
unfoldable pub failed : CircuitBreakerConfig → ℕ → Internal → Internal
failed config now (Internal.half_open until) = Internal.opened (now + config.open_duration)
failed config now (Internal.opened until) = Internal.opened (now + config.open_duration)
failed config now (Internal.closed failures) =
    if leb config.failure_threshold (one_more failures)
    then Internal.opened (now + config.open_duration)
    else Internal.closed (one_more failures)

unfoldable pub on_failure : ℕ → CircuitBreaker → CircuitBreaker
unfolding failed
on_failure now b = if b.config.enabled then record b { state = failed b.config now b.state } else b

unfoldable pub transport_failure_counts : TransportError → Bool
transport_failure_counts e = e.is_connect || (e.is_timeout || e.is_request)

unfoldable pub status_counts_as_failure : ℕ → Bool
status_counts_as_failure status =
    (status == 408 || status == 429) || (leb 500 status && leb status 599)
