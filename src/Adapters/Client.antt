-- ===== src/Adapters/Client.antt =====
-- The client of crates/integration-adapters/src/client.rs: execute_with_retry and what calls it.
-- The network, the credentials and the clock are parameters that may answer differently at every
-- moment; the state keeps the sends and the pauses in their order.
pub mod Delays
pub mod Sends
use commerce_orchestrator_ap.Prelude.{
  ℕ, zero, suc, ◌+◌, ◌-◌, ◌*◌, ◌/◌, ◌%◌, ◌^◌, String, Bool, true, false, not, ◌&&◌, ◌||◌, ◌==◌,
  Option, none, some, List, [], ◌∷◌, ◌++◌, min, leb, if◌then◌else◌,
}
use commerce_orchestrator_ap.Prelude.Int.{u32_mod, u64_mod}
use commerce_orchestrator_ap.Prelude.Texts.{parse_u64}
use commerce_orchestrator_ap.Runtime.Result.{Result, ok, err}
use commerce_orchestrator_ap.Adapters.Error.{
  AdapterError, http, timeout, status, config, TransportError,
}
use commerce_orchestrator_ap.Adapters.Circuit.{
  CircuitBreaker, acquire, on_success, on_failure, transport_failure_counts,
  status_counts_as_failure,
}

-- What the loop reads of a response.
pub record Response : Type 0 where
  pub status : ℕ  -- u16
  pub retry_after : Option String
  pub text : String

abbrev pub Outcome : Type 0
Outcome = Result TransportError Response

pub record ClientConfig : Type 0 where
  pub timeout : ℕ
  pub max_retries : ℕ  -- u32
  pub retry_backoff_ms : ℕ  -- u64

-- At each moment: what attaching the credentials gives, what sending gives, the clock in
-- nanoseconds, and the nanoseconds past the second of the calendar clock.
pub record Network : Type 0 where
  pub apply : ℕ → Result AdapterError (Unit {0})
  pub send : ℕ → Outcome
  pub instant : ℕ → ℕ
  pub subsec_nanos : ℕ → ℕ

pub record Calls : Type 0 where
  pub circuit_breaker : Option CircuitBreaker
  pub moment : ℕ
  pub sends : List Outcome
  pub pauses : List ℕ  -- milliseconds

abbrev pub is_success : ℕ → Bool
is_success code = leb 200 code && leb code 299

unfoldable pub status_is_retryable : ℕ → Bool
status_is_retryable s =
    (s == 408 || s == 425 || s == 429) || (s == 500 || s == 502 || s == 503 || s == 504)

abbrev pub max_retry_after : ℕ
max_retry_after = 30000

-- seconds to milliseconds, at most 30 seconds
abbrev pub capped : Option ℕ → Option ℕ
capped none = none
capped (some seconds) = some (min (1000 * seconds) max_retry_after)

abbrev seconds_of : Option String → Option ℕ
seconds_of none = none
seconds_of (some raw) = parse_u64 raw

unfoldable pub retry_after_delay : Response → Option ℕ
retry_after_delay response = capped (seconds_of response.retry_after)

abbrev u64_max : ℕ
u64_max = u64_mod - 1

-- `2u64.saturating_pow(attempt)` and `saturating_mul`
abbrev pub backoff_base : ClientConfig → ℕ → ℕ
backoff_base cfg attempt = min (cfg.retry_backoff_ms * min (2 ^ attempt) u64_max) u64_max

abbrev jitter : ℕ → ℕ → ℕ
jitter half nanos = if half == 0 then 0 else nanos % (half + 1)

unfoldable pub backoff_delay : ClientConfig → ℕ → ℕ → ℕ
backoff_delay cfg attempt nanos =
    let half = backoff_base cfg attempt / 2 in half + jitter half nanos

pub data RetryPolicy : Type 0 where
  idempotent non_idempotent : RetryPolicy

unfoldable pub allows_status_retry : RetryPolicy → ℕ → Bool
unfolding status_is_retryable
allows_status_retry idempotent code = status_is_retryable code
allows_status_retry non_idempotent code = false

unfoldable pub allows_transport_retry : RetryPolicy → TransportError → Bool
allows_transport_retry idempotent e = true
allows_transport_retry non_idempotent e = e.is_connect

-- `if let Some(breaker) = config.circuit_breaker`
abbrev pub acquire_if :
    ℕ → Option CircuitBreaker → Result AdapterError (Unit {0}) × Option CircuitBreaker
acquire_if now none = (ok tt, none)
acquire_if now (some b) = let (r, b') = acquire now b in (r, some b')

abbrev pub settle_if : Bool → ℕ → Option CircuitBreaker → Option CircuitBreaker
settle_if healthy now none = none
settle_if true now (some b) = some (on_success b)
settle_if false now (some b) = some (on_failure now b)

-- The breaker's share of a send: a response settles it, a failure only where it counts.
abbrev pub report : ℕ → Outcome → Option CircuitBreaker → Option CircuitBreaker
report now (ok response) breaker =
    settle_if (is_success response.status || not (status_counts_as_failure response.status)) now
      breaker
report now (err e) breaker =
    if transport_failure_counts e then settle_if false now breaker else breaker

abbrev pub retryable : RetryPolicy → Outcome → Bool
retryable policy (ok response) = allows_status_retry policy response.status
retryable policy (err e) = allows_transport_retry policy e

-- `last_err`
abbrev pub error_of : ClientConfig → Outcome → AdapterError
error_of cfg (ok response) = status response.status response.text
error_of cfg (err e) = if e.is_timeout then timeout cfg.timeout else http e

-- `retry_after.unwrap_or_else(|| backoff_delay(config, attempt))`
abbrev pub pause_of : ClientConfig → ℕ → ℕ → Outcome → ℕ
pause_of cfg attempt nanos (ok response) = elim (retry_after_delay response) [
  | some delay ↦ delay
  | none ↦ backoff_delay cfg attempt nanos
]
pause_of cfg attempt nanos (err e) = backoff_delay cfg attempt nanos

abbrev pub succeeded : Outcome → Option Response
succeeded (ok response) = if is_success response.status then some response else none
succeeded (err e) = none

abbrev pub Answer : Type 0
Answer = Result AdapterError Response × Calls

module _ (network : Network) (cfg : ClientConfig) (policy : RetryPolicy) where
  -- `tokio::time::sleep(..)`, then the next round
  abbrev pub pause : ℕ → Outcome → (Calls → Answer) → Calls → Answer
  pause attempt outcome next s = next (record s {
    moment = s.moment + 1;
    pauses = s.pauses ++ pause_of cfg attempt (network.subsec_nanos s.moment) outcome ∷ [];
  })

  -- `if !retryable || attempt >= config.max_retries { break }`; there is no next round after the
  -- last attempt.
  abbrev pub retry : ℕ → Outcome → Option (Calls → Answer) → Calls → Answer
  retry attempt outcome none s = (err (error_of cfg outcome), s)
  retry attempt outcome (some next) s =
      if retryable policy outcome
      then pause attempt outcome next s
      else (err (error_of cfg outcome), s)

  -- The send, and what follows it.
  abbrev pub settle : ℕ → Option (Calls → Answer) → Option Response → Outcome → Calls → Answer
  settle attempt next (some response) outcome s = (ok response, s)
  settle attempt next none outcome s = retry attempt outcome next s

  unfoldable pub exchange : ℕ → Option (Calls → Answer) → Calls → Answer
  exchange attempt next s =
      let outcome = network.send s.moment in
      settle attempt next (succeeded outcome) outcome (record s {
        moment = s.moment + 1;
        sends = s.sends ++ outcome ∷ [];
        circuit_breaker = report (network.instant (s.moment + 1)) outcome s.circuit_breaker;
      })

  -- `config.auth.apply(request, client)`; its failure is reported to the breaker.
  abbrev pub authorize : Result AdapterError (Unit {0}) → (Calls → Answer) → Calls → Answer
  authorize (ok _) next s = next s
  authorize (err e) next s = (
    err e,
    record s { circuit_breaker = settle_if false (network.instant s.moment) s.circuit_breaker },
  )

  -- `breaker.acquire()?`
  abbrev pub admitted : Result AdapterError (Unit {0}) → (Calls → Answer) → Calls → Answer
  admitted (ok _) next s = next s
  admitted (err e) next s = (err e, s)

  unfoldable pub round : ℕ → Option (Calls → Answer) → Calls → Answer
  unfolding exchange
  round attempt next s =
      let (permit, breaker) = acquire_if (network.instant s.moment) s.circuit_breaker in
      admitted permit
        (λ t.
          authorize (network.apply t.moment) (exchange attempt next)
            (record t { moment = t.moment + 1 }))
        (record s { moment = s.moment + 1; circuit_breaker = breaker })

  -- The rounds from `attempt` on, with `left` more to come after it.
  unfoldable pub rounds : ℕ → ℕ → Calls → Answer
  unfolding round
  rounds zero attempt s = round attempt none s
  rounds (suc left) attempt s = round attempt (some (rounds left (attempt + 1))) s

  -- `for attempt in 0..=config.max_retries`
  unfoldable pub execute_with_retry : Calls → Answer
  unfolding rounds
  execute_with_retry = rounds cfg.max_retries 0

module _ (network : Network) (cfg : ClientConfig) where
  -- `get_with_retry`
  unfoldable pub get_with_retry : Calls → Answer
  unfolding execute_with_retry
  get_with_retry = execute_with_retry network cfg idempotent

  -- `RequestOptions::idempotency_key`
  abbrev pub policy_of : Option String → RetryPolicy
  policy_of none = non_idempotent
  policy_of (some key) = idempotent

  unfoldable pub post_json : Option String → Calls → Answer
  unfolding execute_with_retry
  post_json idempotency_key = execute_with_retry network cfg (policy_of idempotency_key)
