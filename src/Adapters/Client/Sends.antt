-- ===== src/Adapters/Client/Sends.antt =====
-- Which requests the client repeats.
use commerce_orchestrator_ap.Prelude.{
  String, ℕ, zero, suc, ◌+◌, ◌≡◌, ◌≤◌, refl, sym, ap, ◌∙◌, true, Option, none, some, List, [], ◌∷◌,
  ◌++◌, any, ◌==◌, length, if◌then◌else◌, arith, Bool-cases, inl, inr, append_assoc, append-nil,
  subst,
}
use mathlib.Core.Option.{some-injective, none-ne-some}
use commerce_orchestrator_ap.Runtime.Result.{Result, ok, err}
use commerce_orchestrator_ap.Adapters.Error.{AdapterError}
use commerce_orchestrator_ap.Adapters.Client.{
  Response, Outcome, ClientConfig, Network, Calls, Answer, RetryPolicy, idempotent, non_idempotent,
  is_success, acquire_if, allows_status_retry, allows_transport_retry, status_is_retryable,
  retryable, succeeded, error_of, retry, settle, exchange, authorize, admitted, round, rounds,
  execute_with_retry, get_with_retry, post_json,
}

-- The statuses of a transient fault.
abbrev transient : List ℕ
transient = 408 ∷ 425 ∷ 429 ∷ 500 ∷ 502 ∷ 503 ∷ 504 ∷ []

-- A request may be sent again after this outcome: a request that must not be applied twice only if
-- it never reached the provider, any other after a failure or a transient status.
abbrev pub MayRepeat : RetryPolicy → Outcome → Type 0
MayRepeat non_idempotent (ok response) = ⊥
MayRepeat non_idempotent (err e) = e.is_connect ≡ true
MayRepeat idempotent (ok response) = any (λ s. response.status == s) transient ≡ true
MayRepeat idempotent (err e) = Unit

-- Every send but the last may be repeated.
abbrev pub AllRepeated : RetryPolicy → List Outcome → Type 0
AllRepeated policy [] = Unit
AllRepeated policy (o ∷ []) = Unit
AllRepeated policy (o ∷ p ∷ more) = MayRepeat policy o × AllRepeated policy (p ∷ more)

-- A response that is returned is the last one received, and a success.
abbrev pub Ended : Result AdapterError Response → List Outcome → Type 0
Ended (err e) made = Unit
Ended (ok response) made =
    (is_success response.status ≡ true)
    × ((first : List Outcome) × (made ≡ first ++ ok response ∷ []))

-- What a run of the client from `s` sent, at most `n` times.
pub record Sends (policy : RetryPolicy) (n : ℕ) (s : Calls) (answer : Answer) : Type 0 where
  pub made : List Outcome
  pub added : answer.1.sends ≡ s.sends ++ made
  pub few : length made ≤ n
  pub repeated : AllRepeated policy made
  pub ended : Ended answer.0 made

retryable-MayRepeat :
    (policy : RetryPolicy) (o : Outcome) → retryable policy o ≡ true → MayRepeat policy o
unfolding allows_status_retry allows_transport_retry status_is_retryable
retryable-MayRepeat idempotent (ok response) h = ground arith
retryable-MayRepeat idempotent (err e) h = tt
retryable-MayRepeat non_idempotent (ok response) h = cc
retryable-MayRepeat non_idempotent (err e) h = h

AllRepeated-cons :
    (policy : RetryPolicy) (o : Outcome) (made : List Outcome)
    → MayRepeat policy o
    → AllRepeated policy made
    → AllRepeated policy (o ∷ made)
AllRepeated-cons policy o [] m h = tt
AllRepeated-cons policy o (p ∷ made) m h = (m, h)

Ended-cons :
    (r : Result AdapterError Response) (o : Outcome) (made : List Outcome)
    → Ended r made
    → Ended r (o ∷ made)
Ended-cons (err e) o made h = tt
Ended-cons (ok response) o made (good, (first, e)) = (good, (o ∷ first, ap (λ l. o ∷ l) e))

module _ {policy : RetryPolicy} {n : ℕ} {s t : Calls} where
  silent : (e : AdapterError) → t.sends ≡ s.sends → Sends policy n s (err e, t)
  silent e h = record {
    made = [];
    added = h ∙ sym (append-nil s.sends);
    few = omega arith;
    repeated = tt;
    ended = tt;
  }

  last_send :
      (o : Outcome) (r : Result AdapterError Response)
      → t.sends ≡ s.sends ++ o ∷ []
      → Ended r (o ∷ [])
      → Sends policy (suc n) s (r, t)
  last_send o r h k = record {
    made = o ∷ [];
    added = h;
    few = omega arith;
    repeated = tt;
    ended = k;
  }

  -- A send after which the client goes on from `t`.
  more_sends :
      (o : Outcome) (answer : Answer)
      → t.sends ≡ s.sends ++ o ∷ []
      → MayRepeat policy o
      → Sends policy n t answer
      → Sends policy (suc n) s answer
  more_sends o answer h m rest = record {
    made = o ∷ rest.made;
    added = rest.added ∙ ap (λ l. l ++ rest.made) h ∙ append_assoc s.sends (o ∷ []) rest.made;
    few = omega (arith, rest.few);
    repeated = AllRepeated-cons policy o rest.made m rest.repeated;
    ended = Ended-cons answer.0 o rest.made rest.ended;
  }

Sends-from :
    {policy : RetryPolicy} {n : ℕ} (s t : Calls) {answer : Answer}
    → t.sends ≡ s.sends
    → Sends policy n t answer
    → Sends policy n s answer
Sends-from s t same r = record {
  made = r.made;
  added = r.added ∙ ap (λ l. l ++ r.made) same;
  few = r.few;
  repeated = r.repeated;
  ended = r.ended;
}

succeeded-some :
    (o : Outcome) (response : Response)
    → succeeded o ≡ some response
    → (is_success response.status ≡ true) × (o ≡ ok response)
succeeded-some (err e) response h = cc
succeeded-some (ok r) response h = elim (Bool-cases (is_success r.status)) [
  | inl good ↦
      let same : r ≡ response = some-injective _ _ (rw (good, if◌then◌else◌) at h) in
      (subst (λ x. is_success x.status ≡ true) same good, ap ok same)
  | inr bad ↦ absurd (none-ne-some response (rw (bad, if◌then◌else◌) at h))
]

module _ (network : Network) (cfg : ClientConfig) (policy : RetryPolicy) where
  -- What is known of the rounds to come.
  abbrev NextSends : ℕ → Option (Calls → Answer) → Type 0
  NextSends n none = Unit
  NextSends n (some next) = (u : Calls) → Sends policy n u (next u)

  module _ (n attempt : ℕ) (next : Option (Calls → Answer)) (h : NextSends n next) where
    retry-Sends :
        (o : Outcome) (s t : Calls)
        → t.sends ≡ s.sends ++ o ∷ []
        → Sends policy (suc n) s (retry network cfg policy attempt o next t)
    retry-Sends o s t sent = go next h
      where
        go :
            (k : Option (Calls → Answer))
            → NextSends n k
            → Sends policy (suc n) s (retry network cfg policy attempt o k t)
        go none k = last_send o (err (error_of cfg o)) sent tt
        go (some f) k = elim (Bool-cases (retryable policy o)) [
          | inl again ↦ rw again (more_sends o _ sent (retryable-MayRepeat policy o again) (k _))
          | inr final ↦ rw final (last_send o (err (error_of cfg o)) sent tt)
        ]

    settle-Sends :
        (found : Option Response) (o : Outcome) (s t : Calls)
        → succeeded o ≡ found
        → t.sends ≡ s.sends ++ o ∷ []
        → Sends policy (suc n) s (settle network cfg policy attempt next found o t)
    settle-Sends none o s t e sent = retry-Sends o s t sent
    settle-Sends (some response) o s t e sent =
        let (good, same) = succeeded-some o response e in
        last_send o (ok response) sent (good, ([], ap (λ x. x ∷ []) same))

    exchange-Sends :
        (s : Calls) → Sends policy (suc n) s (exchange network cfg policy attempt next s)
    unfolding exchange
    exchange-Sends s = settle-Sends _ (network.send s.moment) s _ refl refl

    -- The credentials and the permit make no send.
    authorize-Sends :
        (permit : Result AdapterError (Unit {0})) (s t : Calls)
        → t.sends ≡ s.sends
        → Sends policy
            (suc n)
            s
            (authorize network cfg policy permit (exchange network cfg policy attempt next) t)
    authorize-Sends (err e) s t same = silent e same
    authorize-Sends (ok _) s t same = Sends-from s t same (exchange-Sends t)

    admitted-Sends :
        (permit : Result AdapterError (Unit {0})) (f : Calls → Answer) (s t : Calls)
        → t.sends ≡ s.sends
        → Sends policy (suc n) s (f t)
        → Sends policy (suc n) s (admitted network cfg policy permit f t)
    admitted-Sends (err e) f s t same k = silent e same
    admitted-Sends (ok _) f s t same k = k

    round-Sends : (s : Calls) → Sends policy (suc n) s (round network cfg policy attempt next s)
    unfolding round
    round-Sends s =
        let (permit, breaker) = acquire_if (network.instant s.moment) s.circuit_breaker in
        admitted-Sends permit _ s _ refl (authorize-Sends (network.apply (s.moment + 1)) s _ refl)

  rounds-Sends :
      (left attempt : ℕ) (s : Calls)
      → Sends policy (suc left) s (rounds network cfg policy left attempt s)
  unfolding rounds
  rounds-Sends zero attempt s = round-Sends zero attempt none tt s
  rounds-Sends (suc left) attempt s =
      round-Sends (suc left) attempt (some (rounds network cfg policy left (attempt + 1)))
        (rounds-Sends left (attempt + 1)) s

  -- The sends of the shared loop, under any policy.
  execute_with_retry-Sends :
      (s : Calls) → Sends policy (suc cfg.max_retries) s (execute_with_retry network cfg policy s)
  unfolding execute_with_retry
  execute_with_retry-Sends s = rounds-Sends cfg.max_retries 0 s

module _ (network : Network) (cfg : ClientConfig) where
  -- However the network answers, a GET and a POST send their request at most `max_retries + 1` times,
  -- and a response that is returned is the last one received, and a success. A GET, and a POST with
  -- an idempotency key, is repeated only after a transport error or one of the statuses 408, 425,
  -- 429, 500, 502, 503 and 504; a POST without a key only after an error of the connection, so it
  -- never reached the provider.
  pub post_json-Sends :
      (s : Calls)
      → Sends idempotent (suc cfg.max_retries) s (get_with_retry network cfg s)
        × (((key : String)
              → Sends idempotent (suc cfg.max_retries) s (post_json network cfg (some key) s))
            × Sends non_idempotent (suc cfg.max_retries) s (post_json network cfg none s))
  unfolding get_with_retry post_json
  post_json-Sends s = (
    execute_with_retry-Sends network cfg idempotent s,
    (
      λ key. execute_with_retry-Sends network cfg idempotent s,
      execute_with_retry-Sends network cfg non_idempotent s,
    ),
  )
