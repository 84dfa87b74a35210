-- ===== src/Adapters/Circuit/Windows.antt =====
-- When the breaker lets calls through.
use commerce_orchestrator_ap.Prelude.{
  ℕ, ◌+◌, ◌≡◌, ◌≤◌, ◌<◌, refl, sym, subst, Bool, true, false, List, [], ◌∷◌, if◌then◌else◌, arith,
  String, Bool-cases, inl, inr,
}
use commerce_orchestrator_ap.Runtime.Result.{ok, err}
use commerce_orchestrator_ap.Adapters.Error.{circuit_open}
use commerce_orchestrator_ap.Adapters.Circuit.{
  CircuitBreaker, CircuitBreakerConfig, Internal, new_breaker, acquire, admit, on_success,
  on_failure, failed, CircuitState, observe,
}

-- What the callers of a breaker do to it, and when.
pub data Event : Type 0 where
  asked failure success : ℕ → Event

abbrev pub time_of : Event → ℕ
time_of (asked now) = now
time_of (failure now) = now
time_of (success now) = now

unfoldable pub happen : CircuitBreaker → Event → CircuitBreaker
unfolding acquire on_success on_failure
happen b (asked now) = (acquire now b).1
happen b (failure now) = on_failure now b
happen b (success now) = on_success b

pub history : CircuitBreaker → List Event → CircuitBreaker
history b [] = b
history b (e ∷ es) = history (happen b e) es

abbrev pub AllBy : ℕ → List Event → Type 0
AllBy now [] = Unit
AllBy now (e ∷ es) = (time_of e ≤ now) × AllBy now es

-- The windows of a state end by then.
abbrev EndsBy : ℕ → Internal → Type 0
EndsBy time (Internal.closed _) = Unit
EndsBy time (Internal.opened until) = until ≤ time
EndsBy time (Internal.half_open until) = until ≤ time

module _ (config : CircuitBreakerConfig) (now later : ℕ)
    (open_over : now + config.open_duration ≤ later)
    (probe_over : now + config.probe_timeout ≤ later) where
  admit-EndsBy :
      (t : ℕ) (i : Internal) → t ≤ now → EndsBy later i → EndsBy later (admit config t i).1
  unfolding admit
  admit-EndsBy t (Internal.closed n) h k = tt
  admit-EndsBy t (Internal.opened until) h k = ground arith
  admit-EndsBy t (Internal.half_open until) h k = ground arith

  failed-EndsBy : (t : ℕ) (i : Internal) → t ≤ now → EndsBy later (failed config t i)
  unfolding failed
  failed-EndsBy t (Internal.closed n) h = ground arith
  failed-EndsBy t (Internal.opened until) h = omega arith
  failed-EndsBy t (Internal.half_open until) h = omega arith

  -- The state after an event, for a breaker that is enabled or not.
  abbrev after : Event → Internal → Internal
  after (asked t) i = if config.enabled then (admit config t i).1 else i
  after (failure t) i = if config.enabled then failed config t i else i
  after (success t) i = if config.enabled then Internal.closed 0 else i

  if-EndsBy :
      (b : Bool) (i j : Internal)
      → EndsBy later i
      → EndsBy later j
      → EndsBy later (if b then i else j)
  if-EndsBy true i j h k = h
  if-EndsBy false i j h k = k

  after-EndsBy :
      (e : Event) (i : Internal) → time_of e ≤ now → EndsBy later i → EndsBy later (after e i)
  after-EndsBy (asked t) i h k = if-EndsBy config.enabled _ _ (admit-EndsBy t i h k) k
  after-EndsBy (failure t) i h k = if-EndsBy config.enabled _ _ (failed-EndsBy t i h) k
  after-EndsBy (success t) i h k = if-EndsBy config.enabled _ _ tt k

  module _ (provider : String) where
    abbrev with_state : Internal → CircuitBreaker
    with_state i = record { provider = provider; config = config; state = i }

    happen-after : (e : Event) (i : Internal) → happen (with_state i) e ≡ with_state (after e i)
    unfolding happen acquire on_success on_failure
    happen-after (asked t) i = elim (Bool-cases config.enabled) [
      | inl e ↦ rw e refl
      | inr e ↦ rw e refl
    ]
    happen-after (failure t) i = elim (Bool-cases config.enabled) [
      | inl e ↦ rw e refl
      | inr e ↦ rw e refl
    ]
    happen-after (success t) i = elim (Bool-cases config.enabled) [
      | inl e ↦ rw e refl
      | inr e ↦ rw e refl
    ]

    admitted : (i : Internal) → EndsBy later i → (acquire later (with_state i)).0 ≡ ok tt
    unfolding acquire admit
    admitted i h = ground arith

    history-admitted :
        (es : List Event) (i : Internal)
        → AllBy now es
        → EndsBy later i
        → (acquire later (history (with_state i) es)).0 ≡ ok tt
    unfolding history
    history-admitted [] i hs h = admitted i h
    history-admitted (e ∷ es) i hs h =
        rw (happen-after e i) (history-admitted es (after e i) hs.1 (after-EndsBy e i hs.0 h))

-- The breaker is never wedged: whatever its callers did until `now`, a call made once both the open
-- window and the lease of a probe have passed since then is admitted.
pub acquire-history :
    (provider : String) (config : CircuitBreakerConfig) (es : List Event) (now later : ℕ)
    → AllBy now es
    → now + config.open_duration ≤ later
    → now + config.probe_timeout ≤ later
    → (acquire later (history (new_breaker provider config) es)).0 ≡ ok tt
acquire-history provider config es now later by open_over probe_over =
    history-admitted config now later open_over probe_over provider es (Internal.closed 0) by tt

-- Calls at these times, one after the other, were all refused and changed nothing.
abbrev pub AllRefused : CircuitBreaker → List ℕ → Type 0
AllRefused b [] = Unit
AllRefused b (t ∷ ts) = (acquire t b ≡ (err (circuit_open b.provider), b)) × AllRefused b ts

abbrev pub AllBefore : ℕ → List ℕ → Type 0
AllBefore until [] = Unit
AllBefore until (t ∷ ts) = (t < until) × AllBefore until ts

module _ (provider : String) (config : CircuitBreakerConfig) (enabled : config.enabled ≡ true) where
  half_open-refuses :
      (until : ℕ) (ts : List ℕ)
      → AllBefore until ts
      → AllRefused
          (record { provider = provider; config = config; state = Internal.half_open until })
          ts
  unfolding acquire admit
  half_open-refuses until [] h = tt
  half_open-refuses until (t ∷ ts) (before, h) = (ground arith, half_open-refuses until ts h)

  probe_lease :
      (now : ℕ) (i : Internal) (b : CircuitBreaker)
      → observe now i ≡ CircuitState.half_open
      → acquire now (record { provider = provider; config = config; state = i }) ≡ (ok tt, b)
      → b ≡ record {
        provider = provider;
        config = config;
        state = Internal.half_open (now + config.probe_timeout);
      }
  unfolding observe acquire admit
  probe_lease now (Internal.closed n) b o h = cc
  probe_lease now (Internal.opened until) b o h = ground arith
  probe_lease now (Internal.half_open until) b o h = ground arith

-- A breaker that is not closed lets through one call at a time: after a call that it admits, every
-- call before the lease of that probe ends is refused, and changes nothing, unless the probe
-- reports back.
pub acquire-single_probe :
    (b b' : CircuitBreaker) (now : ℕ) (ts : List ℕ)
    → b.config.enabled ≡ true
    → observe now b.state ≡ CircuitState.half_open
    → acquire now b ≡ (ok tt, b')
    → AllBefore (now + b.config.probe_timeout) ts
    → AllRefused b' ts
acquire-single_probe b b' now ts enabled o h before =
    subst (λ c. AllRefused c ts) (sym (probe_lease b.provider b.config enabled now b.state b' o h))
      (half_open-refuses b.provider b.config enabled _ ts before)
