-- ===== src/Examples/Adapters.antt =====
-- A breaker that fails twice, and a client whose network is busy once.
use commerce_orchestrator_ap.Prelude.{
  String, ◌≡◌, refl, true, none, some, [], ◌∷◌, arith, ◌==◌, if◌then◌else◌,
}
use commerce_orchestrator_ap.Runtime.Result.{ok}
use commerce_orchestrator_ap.Adapters.Circuit.{
  CircuitState, CircuitBreaker, CircuitBreakerConfig, Internal, new_breaker, observe, acquire,
  on_success, on_failure,
}
use commerce_orchestrator_ap.Adapters.Circuit.Windows.{
  asked, failure, history, AllRefused, acquire-history, acquire-single_probe,
}
use commerce_orchestrator_ap.Adapters.Circuit.Threshold.{fail_at, fail_at-opened}
use commerce_orchestrator_ap.Adapters.Client.{
  non_idempotent, get_with_retry, post_json, Network, Calls, ClientConfig, idempotent,
}
use commerce_orchestrator_ap.Adapters.Client.Sends.{Sends, post_json-Sends}

abbrev two_strikes : CircuitBreakerConfig
two_strikes = record {
  enabled = true;
  failure_threshold = 2;
  open_duration = 30;
  probe_timeout = 60;
}

abbrev fresh : CircuitBreaker
fresh = new_breaker "tax" two_strikes

acquire-history_example :
    (acquire 100 (history fresh (failure 5 ∷ failure 6 ∷ asked 40 ∷ []))).0 ≡ ok tt
acquire-history_example =
    acquire-history "tax" two_strikes (failure 5 ∷ failure 6 ∷ asked 40 ∷ []) 40 100
      (omega arith, (omega arith, (omega arith, tt))) (omega arith) (omega arith)

-- Opened until 36, and asked at 40.
abbrev waiting : CircuitBreaker
waiting = record fresh { state = Internal.opened 36 }

abbrev probing : CircuitBreaker
probing = record fresh { state = Internal.half_open 100 }

waiting_is_half_open : observe 40 waiting.state ≡ CircuitState.half_open
unfolding observe
waiting_is_half_open = refl

waiting_admits : acquire 40 waiting ≡ (ok tt, probing)
unfolding acquire
waiting_admits = refl

acquire-single_probe_example : AllRefused probing (41 ∷ 99 ∷ [])
acquire-single_probe_example =
    acquire-single_probe waiting probing 40 (41 ∷ 99 ∷ []) refl waiting_is_half_open waiting_admits
      (omega arith, (omega arith, tt))

fail_at-opened_example :
    let before = fail_at (on_success fresh) (5 ∷ []) in
    (before.state ≡ Internal.closed 1) × ((on_failure 6 before).state ≡ Internal.opened 36)
fail_at-opened_example = fail_at-opened fresh (5 ∷ []) 6 refl (omega arith) refl

abbrev patient : ClientConfig
patient = record { timeout = 1000; max_retries = 3; retry_backoff_ms = 200 }

-- A network that is busy at the first send and answers at the next.
abbrev busy_once : Network
busy_once = record {
  apply = λ n. ok tt;
  send = λ n. ok (record { status = if n == 2 then 503 else 200; retry_after = none; text = "" });
  instant = λ n. n;
  subsec_nanos = λ n. n;
}

abbrev no_calls : Calls
no_calls = record { circuit_breaker = some fresh; moment = 0; sends = []; pauses = [] }

post_json-Sends_example :
    Sends idempotent 4 no_calls (get_with_retry busy_once patient no_calls)
    × (((key : String)
          → Sends idempotent 4 no_calls (post_json busy_once patient (some key) no_calls))
        × Sends non_idempotent 4 no_calls (post_json busy_once patient none no_calls))
post_json-Sends_example = post_json-Sends busy_once patient no_calls
