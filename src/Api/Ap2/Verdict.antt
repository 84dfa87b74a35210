-- ===== src/Api/Ap2/Verdict.antt =====
-- What verify_ap2_strict of crates/orchestrator-api/src/ap2_verification.rs guarantees of a checkout
-- that it lets pass.
use mathlib.Core.Option.{some-injective}
use commerce_orchestrator_ap.Prelude.{
  ℕ, ◌+◌, String, ◌≡◌, refl, subst, Bool, true, false, not, ◌&&◌, Option, none, some, List, [], ◌∷◌,
  ◌++◌, any, is_empty, if◌then◌else◌, arith, All, inl, inr, ◌⊎◌, ◌≢◌,
}
use commerce_orchestrator_ap.Prelude.Int.{ℤ, pos, ◌≤ℤ◌, leb_ℤ}
use commerce_orchestrator_ap.Prelude.Texts.{is_blank, trim, eq_ignore_ascii_case, str_eq_sound}
use commerce_orchestrator_ap.Core.Contract.{CheckoutRequest}
use commerce_orchestrator_ap.Core.Policy.Verdict.{exceeds_iff}
use commerce_orchestrator_ap.Runtime.Result.{ok, err}
use commerce_orchestrator_ap.Api.Ap2.{
  OpenMandate, ConsentProof, Ap2Env, Checks, refuse_first, is_supported_closed_vct,
  is_supported_open_vct, now_unix_timestamp, or_default, or, differs, untrusted, is_none,
  validate_party_fields, validate_open_mandate, vct_checks, ceiling_checks, validate,
  trusted_issuers_from_env, parse, consent_proof, refusal, malformed, proof_required, judge, read,
  verify_ap2_strict,
}

-- No test of a row holds.
abbrev AllPass : Checks → Type 0
AllPass = All (λ c. c.0 ≡ false)

refuse_first-AllPass : (checks : Checks) → refuse_first checks ≡ ok tt → AllPass checks
refuse_first-AllPass [] h = tt
refuse_first-AllPass ((true, m) ∷ checks) h = cc
refuse_first-AllPass ((false, m) ∷ checks) h = (refl, refuse_first-AllPass checks h)

AllPass-append : (xs ys : Checks) → AllPass (xs ++ ys) → AllPass xs × AllPass ys
AllPass-append [] ys h = (tt, h)
AllPass-append (x ∷ xs) ys h = let (l, r) = AllPass-append xs ys h.1 in ((h.0, l), r)

-- A mandate whose issuer is trusted, whose parts are given, that was issued at a positive time
-- before its expiry, and whose expiry the clock has not reached.
pub record IsUnexpired (issuer subject mandate_id signature : String) (issued_at expires_at : ℤ)
    (trusted : List String) (clock : Option ℕ) : Type 0 where
  pub issuer_given : is_blank issuer ≡ false
  pub issuer_trusted :
      (is_empty trusted ≡ true)
      ⊎ (any (λ allowed. eq_ignore_ascii_case allowed (trim issuer)) trusted ≡ true)
  pub subject_given : is_blank subject ≡ false
  pub id_given : is_blank mandate_id ≡ false
  pub signature_given : is_blank signature ≡ false
  pub issued : leb_ℤ issued_at (pos 0) ≡ false
  pub in_order : expires_at ≤ℤ issued_at → ⊥
  pub clock_read : clock ≢ none
  pub not_expired : expires_at ≤ℤ now_unix_timestamp clock → ⊥

double_not : (b : Bool) → not b ≡ false → b ≡ true
double_not true h = refl
double_not false h = cc

trusted_or_any :
    (xs : List String) (issuer : String)
    → untrusted xs issuer ≡ false
    → (is_empty xs ≡ true) ⊎ (any (λ allowed. eq_ignore_ascii_case allowed (trim issuer)) xs ≡ true)
trusted_or_any [] issuer h = inl refl
trusted_or_any (x ∷ xs) issuer h = inr (double_not _ h)

not_leb : (a b : ℤ) → leb_ℤ a b ≡ false → a ≤ℤ b → ⊥
not_leb a b h k = ground arith

not_none : (clock : Option ℕ) → is_none clock ≡ false → clock ≢ none
not_none none h e = cc
not_none (some n) h e = cc

party-IsUnexpired :
    (issuer subject mandate_id signature handler : String) (issued_at expires_at : ℤ)
    (trusted : List String) (clock : Option ℕ)
    → AllPass (
        validate_party_fields issuer subject mandate_id signature handler issued_at expires_at
          trusted clock)
    → IsUnexpired issuer subject mandate_id signature issued_at expires_at trusted clock
unfolding validate_party_fields
party-IsUnexpired issuer subject mandate_id signature handler issued_at expires_at trusted clock
      (a, (b, (c, (d, (e, (f, (g, (h, (i, (j, k)))))))))) =
    record {
      issuer_given = a;
      issuer_trusted = trusted_or_any trusted issuer b;
      subject_given = c;
      id_given = d;
      signature_given = e;
      issued = g;
      in_order = not_leb expires_at issued_at h;
      clock_read = not_none clock i;
      not_expired = not_leb expires_at (now_unix_timestamp clock) j;
    }

-- An open mandate that a closed one may rest on.
pub record IsOpenFor (open_one : OpenMandate) (trusted : List String) (clock : Option ℕ)
    : Type 0 where
  pub supported : is_supported_open_vct open_one.vct ≡ true
  pub key_bound : is_blank (or_default open_one.cnf) ≡ false
  pub unexpired :
      IsUnexpired open_one.issuer open_one.subject open_one.mandate_id open_one.signature
        open_one.issued_at open_one.expires_at trusted clock

-- The most that a mandate allows to be paid: the open mandate's word counts first.
abbrev pub ceiling : Option OpenMandate → Option ℤ → Option ℤ
ceiling none max = max
ceiling (some open_one) max = or open_one.max_amount_minor max

-- What a proof gives of the ceiling and of its open mandate.
abbrev Covered :
    Option OpenMandate → ConsentProof → CheckoutRequest → List String → Option ℕ → Type 0
Covered open_mandate proof request trusted clock =
    ((max : ℤ)
      → ceiling open_mandate proof.max_amount_minor ≡ some max
      → request.payment_intent.amount_minor ≤ℤ max)
    × ((open_one : OpenMandate) → open_mandate ≡ some open_one → IsOpenFor open_one trusted clock)

module _ (proof : ConsentProof) (request : CheckoutRequest) (trusted : List String)
    (clock : Option ℕ) where
  abbrev limit : OpenMandate → Option ℤ
  limit open_one = or open_one.max_amount_minor proof.max_amount_minor

  open-rows :
      (open_one : OpenMandate)
      → AllPass (validate_open_mandate open_one proof request trusted clock)
      → IsOpenFor open_one trusted clock
        × ((max : ℤ) → limit open_one ≡ some max → request.payment_intent.amount_minor ≤ℤ max)
  unfolding validate_open_mandate
  open-rows open_one (a, (b, rows)) =
      let (party, last) =
        AllPass-append
          (validate_party_fields open_one.issuer open_one.subject open_one.mandate_id
            open_one.signature proof.payment_handler_id open_one.issued_at open_one.expires_at
            trusted clock)
          _ rows in
      (
        record {
          supported = double_not _ a;
          key_bound = b;
          unexpired = party-IsUnexpired _ _ _ _ proof.payment_handler_id _ _ trusted clock party;
        },
        (exceeds_iff (limit open_one) request.payment_intent.amount_minor).0 last.0,
      )

  ceiling-Covered :
      (open_mandate : Option OpenMandate)
      → AllPass (ceiling_checks open_mandate proof request trusted clock)
      → Covered open_mandate proof request trusted clock
  ceiling-Covered none rows = (
    (exceeds_iff proof.max_amount_minor request.payment_intent.amount_minor).0 rows.0,
    λ open_one e. cc,
  )
  ceiling-Covered (some open_one) rows =
      let (is_open, within) = open-rows open_one rows in
      (within, λ other e. subst (λ o. IsOpenFor o trusted clock) (some-injective _ _ e) is_open)

-- A proof that stands for a request, judged where the clock first shows `clock` and then
-- `clock_again`.
pub record Authorizes (proof : ConsentProof) (request : CheckoutRequest) (trusted : List String)
    (clock clock_again : Option ℕ) : Type 0 where
  pub handler : proof.payment_handler_id ≡ or_default request.payment_intent.payment_handler_id
  pub unexpired :
      IsUnexpired proof.issuer proof.subject proof.mandate_id proof.signature proof.issued_at
        proof.expires_at trusted clock
  pub within :
      (max : ℤ)
      → ceiling proof.open_mandate proof.max_amount_minor ≡ some max
      → request.payment_intent.amount_minor ≤ℤ max
  pub open_mandate :
      (open_one : OpenMandate)
      → proof.open_mandate ≡ some open_one
      → IsOpenFor open_one trusted clock_again
  pub closed :
      (vct : String)
      → proof.vct ≡ some vct
      → proof.open_mandate ≡ none
      → is_supported_closed_vct vct ≡ true
  pub same_currency :
      (currency : String)
      → proof.currency ≡ some currency
      → eq_ignore_ascii_case currency request.currency ≡ true

closed_or_open : (a b : Bool) → not a && not b ≡ false → b && true ≡ false → a ≡ true
closed_or_open true b h k = refl
closed_or_open false true h k = cc
closed_or_open false false h k = cc

closed_only :
    (found : Option String) (open_mandate : Option OpenMandate) (vct : String)
    → AllPass (vct_checks found open_mandate)
    → found ≡ some vct
    → open_mandate ≡ none
    → is_supported_closed_vct vct ≡ true
closed_only none open_mandate vct rows e f = cc
closed_only (some v) none vct (a, (b, c)) e f =
    subst (λ x. is_supported_closed_vct x ≡ true) (some-injective _ _ e)
      (closed_or_open (is_supported_closed_vct v) (is_supported_open_vct v) a b)
closed_only (some v) (some o) vct rows e f = cc

currency_agrees :
    (found : Option String) (currency wanted : String)
    → differs found wanted ≡ false
    → found ≡ some currency
    → eq_ignore_ascii_case currency wanted ≡ true
currency_agrees none currency wanted h e = cc
currency_agrees (some c) currency wanted h e =
    subst (λ x. eq_ignore_ascii_case x wanted ≡ true) (some-injective _ _ e) (double_not _ h)

validate-Authorizes :
    (proof : ConsentProof) (request : CheckoutRequest) (trusted : List String)
    (clock clock_again : Option ℕ)
    → AllPass (validate proof request trusted clock clock_again)
    → Authorizes proof request trusted clock clock_again
unfolding validate
validate-Authorizes proof request trusted clock clock_again rows =
    let (vcts, after_vct) = AllPass-append (vct_checks proof.vct proof.open_mandate) _ rows in
    let (party, after_party) =
      AllPass-append
        (validate_party_fields proof.issuer proof.subject proof.mandate_id proof.signature
          proof.payment_handler_id proof.issued_at proof.expires_at trusted clock)
        _ after_vct in
    let (covered, last) =
      AllPass-append (ceiling_checks proof.open_mandate proof request trusted clock_again) _
        after_party.1 in
    let (within, is_open) =
      ceiling-Covered proof request trusted clock_again proof.open_mandate covered in
    record {
      handler = str_eq_sound proof.payment_handler_id _ (double_not _ after_party.0);
      unexpired = party-IsUnexpired _ _ _ _ proof.payment_handler_id _ _ trusted clock party;
      within = within;
      open_mandate = is_open;
      closed = λ vct e f. closed_only proof.vct proof.open_mandate vct vcts e f;
      same_currency = λ c e. currency_agrees proof.currency c request.currency last.0 e;
    }

-- The proof that a request passed with.
pub record Passed (env : Ap2Env) (moment : ℕ) (request : CheckoutRequest) : Type 0 where
  pub raw : String
  pub proof : ConsentProof
  pub given : request.payment_intent.ap2_consent_proof ≡ some raw
  pub read_as : env.from_str raw ≡ some proof
  pub authorizes :
      Authorizes proof request
        (trusted_issuers_from_env env.trusted_issuers_var)
        (env.since_epoch moment)
        (env.since_epoch (moment + 1))

module _ (env : Ap2Env) (moment : ℕ) (request : CheckoutRequest) where
  parsed-Passed :
      (raw : String) (found : Option ConsentProof)
      → request.payment_intent.ap2_consent_proof ≡ some raw
      → env.from_str raw ≡ found
      → judge env moment request
          (elim found [ none ↦ err (refusal malformed) | some proof ↦ ok proof ])
        ≡ ok tt
      → Passed env moment request
  parsed-Passed raw none g f h = absurd cc
  parsed-Passed raw (some proof) g f h = record {
    raw = raw;
    proof = proof;
    given = g;
    read_as = f;
    authorizes = validate-Authorizes proof request _ _ _ (refuse_first-AllPass _ h);
  }

  handled-Passed :
      (raw : String) (without : Bool)
      → request.payment_intent.ap2_consent_proof ≡ some raw
      → (if without
          then err (refusal "payment_handler_id is required")
          else judge env moment request (parse env raw))
        ≡ ok tt
      → Passed env moment request
  handled-Passed raw true g h = absurd cc
  handled-Passed raw false g h = parsed-Passed raw (env.from_str raw) g refl h

  blank-Passed :
      (raw : String) (blank : Bool)
      → request.payment_intent.ap2_consent_proof ≡ some raw
      → read env moment request (if blank then err (refusal proof_required) else ok raw) ≡ ok tt
      → Passed env moment request
  blank-Passed raw true g h = absurd cc
  blank-Passed raw false g h = handled-Passed raw _ g h

  given-Passed :
      (found : Option String)
      → request.payment_intent.ap2_consent_proof ≡ found
      → read env moment request (consent_proof env found) ≡ ok tt
      → Passed env moment request
  given-Passed none g h = absurd cc
  given-Passed (some raw) g h = blank-Passed raw (is_blank raw) g h

  -- A request that passes the strict verification brings a consent proof for its own payment
  -- handler, whose parties are given and whose issuer is trusted (or no issuer is named as trusted),
  -- that was issued at a positive time before its expiry and has not expired by the clock (its issue
  -- time is not compared with the clock), whose ceiling (the open mandate's first) the amount keeps,
  -- whose currency, if it names one, is the checkout's, and whose kind, if it names one, is a closed
  -- one unless it brings an open mandate, which then is of an open kind, bound to a key, and meets
  -- the same conditions on its parties and times.
  pub verify_ap2_strict-Passed :
      verify_ap2_strict env moment request ≡ ok tt → Passed env moment request
  unfolding verify_ap2_strict
  verify_ap2_strict-Passed h = given-Passed request.payment_intent.ap2_consent_proof refl h
