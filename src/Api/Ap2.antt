-- ===== src/Api/Ap2.antt =====
-- crates/orchestrator-api/src/ap2_verification.rs. A verification is the list of its tests in
-- order, each with the message of its refusal; the first test that holds refuses.
pub mod Verdict
use commerce_orchestrator_ap.Prelude.{
  ℕ, ◌+◌, String, Bool, true, false, not, ◌&&◌, ◌||◌, Option, none, some, List, [], ◌∷◌, any,
  is_empty, ◌++◌, map, if◌then◌else◌, retain,
}
use commerce_orchestrator_ap.Prelude.Int.{ℤ, pos, ltb_ℤ, leb_ℤ, wrap64}
use commerce_orchestrator_ap.Prelude.Texts.{
  str_eq, concat, str_is_empty, is_blank, trim, split_char, eq_ignore_ascii_case,
}
use commerce_orchestrator_ap.Core.Policy.{exceeds}
use commerce_orchestrator_ap.Core.Contract.{CheckoutRequest}
use commerce_orchestrator_ap.Runtime.Result.{Result, ok, err}
use commerce_orchestrator_ap.Api.Error.{Ap2VerificationError, verification_failed}

pub record OpenMandate : Type 0 where
  pub vct : String
  pub issuer : String
  pub subject : String
  pub mandate_id : String
  pub issued_at : ℤ
  pub expires_at : ℤ
  pub signature : String
  pub cnf : Option String
  pub max_amount_minor : Option ℤ
  pub currency : Option String

pub record ConsentProof : Type 0 where
  pub vct : Option String
  pub issuer : String
  pub subject : String
  pub mandate_id : String
  pub payment_handler_id : String
  pub issued_at : ℤ
  pub expires_at : ℤ
  pub signature : String
  pub nonce : Option String
  pub open_mandate : Option OpenMandate
  pub checkout_hash : Option String
  pub max_amount_minor : Option ℤ
  pub currency : Option String

pub record Ap2MandateRecord : Type 0 where
  pub mandate_id : String
  pub expires_at : ℤ

-- What the verification reads from outside: serde_json on a consent proof, the variable
-- AP2_TRUSTED_ISSUERS, and the seconds since the epoch, which a clock before it does not have.
pub record Ap2Env : Type 0 where
  pub from_str : String → Option ConsentProof
  pub trusted_issuers_var : Option String
  pub since_epoch : ℕ → Option ℕ

abbrev pub refusal : String → Ap2VerificationError
refusal message = verification_failed (concat ("AP2 strict mode: " ∷ message ∷ []))

abbrev pub Checks : Type 0
Checks = List (Bool × String)

-- A row of `if test { return Err(..) }`.
abbrev pub refuse_first : Checks → Result Ap2VerificationError (Unit {0})
refuse_first [] = ok tt
refuse_first ((true, message) ∷ checks) = err (refusal message)
refuse_first ((false, message) ∷ checks) = refuse_first checks

unfoldable pub is_supported_closed_vct : String → Bool
is_supported_closed_vct vct =
    any (str_eq vct) ("mandate.payment.1" ∷ "mandate.checkout.1" ∷ "mandate.checkout.closed.1" ∷ [])

unfoldable pub is_supported_open_vct : String → Bool
is_supported_open_vct vct =
    any (str_eq vct)
      ("mandate.checkout.open.1" ∷ "mandate.payment.open.1" ∷ "mandate.payment.open" ∷ [])

-- `now_unix_timestamp`; its failure is a test of its own below.
abbrev pub now_unix_timestamp : Option ℕ → ℤ
now_unix_timestamp none = pos 0
now_unix_timestamp (some seconds) = wrap64 (pos seconds)

abbrev pub or_default : Option String → String
or_default none = ""
or_default (some s) = s

abbrev pub is_none : {A : Type 0} → Option A → Bool
is_none none = true
is_none (some _) = false

abbrev pub or : {A : Type 0} → Option A → Option A → Option A
or none b = b
or (some a) b = some a

abbrev pub differs : Option String → String → Bool
differs none currency = false
differs (some c) currency = not (eq_ignore_ascii_case c currency)

abbrev pub untrusted : List String → String → Bool
untrusted trusted_issuers issuer =
    not (is_empty trusted_issuers)
    && not (any (λ allowed. eq_ignore_ascii_case allowed (trim issuer)) trusted_issuers)

-- The parties and the times of a mandate, and the reading of the clock.
unfoldable pub validate_party_fields :
    String → String → String → String → String → ℤ → ℤ → List String → Option ℕ → Checks
validate_party_fields issuer subject mandate_id signature handler_id issued_at expires_at trusted
      clock =
    (is_blank issuer, "consent proof issuer is required")
    ∷ (
      untrusted trusted issuer,
      concat ("consent proof issuer '" ∷ issuer ∷ "' is not trusted" ∷ []),
    )
    ∷ (is_blank subject, "consent proof subject is required")
    ∷ (is_blank mandate_id, "consent proof mandate_id is required")
    ∷ (is_blank signature, "consent proof signature is required")
    ∷ (is_blank handler_id, "consent proof payment_handler_id is required")
    ∷ (leb_ℤ issued_at (pos 0), "consent proof issued_at must be a unix timestamp")
    ∷ (leb_ℤ expires_at issued_at, "consent proof expires_at must be after issued_at")
    ∷ (is_none clock, "system clock is invalid")
    ∷ (leb_ℤ expires_at (now_unix_timestamp clock), "consent proof has expired")
    ∷ []

-- No ceiling stands for the default ceiling `i64::MAX`, which no amount exceeds.
unfoldable pub validate_open_mandate :
    OpenMandate → ConsentProof → CheckoutRequest → List String → Option ℕ → Checks
validate_open_mandate open_one closed request trusted_issuers clock =
    (
      not (is_supported_open_vct open_one.vct),
      concat ("unsupported open mandate vct '" ∷ open_one.vct ∷ "'" ∷ []),
    )
      ∷ (
        is_blank (or_default open_one.cnf),
        "open mandate cnf (agent key binding) is required for HNP",
      )
      ∷ (validate_party_fields open_one.issuer open_one.subject open_one.mandate_id
          open_one.signature closed.payment_handler_id open_one.issued_at open_one.expires_at
          trusted_issuers clock)
    ++ (
      exceeds (or open_one.max_amount_minor closed.max_amount_minor)
          request.payment_intent.amount_minor,
      "closed mandate amount exceeds open mandate max_amount_minor",
    )
      ∷ (
        differs (or open_one.currency closed.currency) request.currency,
        "open mandate currency constraint not satisfied",
      )
      ∷ []

-- `ConsentProof::validate`: the tests before, among and after the parties.
abbrev pub vct_checks : Option String → Option OpenMandate → Checks
vct_checks none open_mandate = []
vct_checks (some vct) open_mandate =
    (
      not (is_supported_closed_vct vct) && not (is_supported_open_vct vct),
      concat ("unsupported mandate vct '" ∷ vct ∷ "'" ∷ []),
    )
    ∷ (
      is_supported_open_vct vct && is_none open_mandate,
      "open mandate alone cannot authorize checkout; closed mandate required",
    )
    ∷ []

abbrev pub ceiling_checks :
    Option OpenMandate → ConsentProof → CheckoutRequest → List String → Option ℕ → Checks
ceiling_checks (some open_one) proof request trusted_issuers clock =
    validate_open_mandate open_one proof request trusted_issuers clock
ceiling_checks none proof request trusted_issuers clock =
    (
      exceeds proof.max_amount_minor request.payment_intent.amount_minor,
      "payment amount exceeds mandate max_amount_minor",
    )
    ∷ []

-- The clock is read once for the proof and once more for an open mandate.
unfoldable pub validate :
    ConsentProof → CheckoutRequest → List String → Option ℕ → Option ℕ → Checks
validate proof request trusted_issuers clock clock_again =
    vct_checks proof.vct proof.open_mandate
    ++ (validate_party_fields proof.issuer proof.subject proof.mandate_id proof.signature
          proof.payment_handler_id proof.issued_at proof.expires_at trusted_issuers clock
        ++ ((
          not (
              str_eq proof.payment_handler_id
                (or_default request.payment_intent.payment_handler_id)),
          "consent proof payment_handler_id must match request payment_handler_id",
        )
              ∷ ceiling_checks proof.open_mandate proof request trusted_issuers clock_again
            ++ (
              differs proof.currency request.currency,
              "mandate currency does not match checkout currency",
            )
              ∷ []))

abbrev pub trusted_issuers_from_env : Option String → List String
trusted_issuers_from_env none = []
trusted_issuers_from_env (some value) =
    retain (λ issuer. not (str_is_empty issuer)) (map trim (split_char b',' value))

-- `as_deref().filter(|s| !s.trim().is_empty()).ok_or(..)?` and `ConsentProof::parse(..)?`
abbrev pub proof_required : String
proof_required = "ap2_consent_proof is required"

abbrev pub malformed : String
malformed =
    "ap2_consent_proof must be JSON with issuer, subject, mandate_id, payment_handler_id, issued_at, expires_at, and signature"

module _ (env : Ap2Env) where
  abbrev pub parse : String → Result Ap2VerificationError ConsentProof
  parse raw = elim (env.from_str raw) [ none ↦ err (refusal malformed) | some proof ↦ ok proof ]

  abbrev pub consent_proof : Option String → Result Ap2VerificationError String
  consent_proof none = err (refusal proof_required)
  consent_proof (some raw) = if is_blank raw then err (refusal proof_required) else ok raw

  abbrev pub no_handler : Option String → Bool
  no_handler none = true
  no_handler (some handler) = str_is_empty handler

  abbrev pub judge :
      ℕ
      → CheckoutRequest
      → Result Ap2VerificationError ConsentProof
      → Result Ap2VerificationError (Unit {0})
  judge moment request (err e) = err e
  judge moment request (ok proof) = refuse_first (
      validate proof request (trusted_issuers_from_env env.trusted_issuers_var)
        (env.since_epoch moment) (env.since_epoch (moment + 1)))

  abbrev pub read :
      ℕ
      → CheckoutRequest
      → Result Ap2VerificationError String
      → Result Ap2VerificationError (Unit {0})
  read moment request (err e) = err e
  read moment request (ok raw) =
      if no_handler request.payment_intent.payment_handler_id
      then err (refusal "payment_handler_id is required")
      else judge moment request (parse raw)

  unfoldable pub verify_ap2_strict : ℕ → CheckoutRequest → Result Ap2VerificationError (Unit {0})
  verify_ap2_strict moment request =
      read moment request (consent_proof request.payment_intent.ap2_consent_proof)

  abbrev record_of :
      Result Ap2VerificationError ConsentProof → Result Ap2VerificationError Ap2MandateRecord
  record_of (err e) = err e
  record_of (ok proof) =
      ok (record { mandate_id = proof.mandate_id; expires_at = proof.expires_at })

  abbrev parsed : Result Ap2VerificationError String → Result Ap2VerificationError Ap2MandateRecord
  parsed (err e) = err e
  parsed (ok raw) = record_of (parse raw)

  unfoldable pub extract_ap2_mandate_record :
      CheckoutRequest → Result Ap2VerificationError Ap2MandateRecord
  extract_ap2_mandate_record request =
      parsed (consent_proof request.payment_intent.ap2_consent_proof)
