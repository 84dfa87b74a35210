-- ===== src/Api/Signing/Checks.antt =====
-- What each test of VerifyingKeyring::verify_one in crates/orchestrator-api/src/signing.rs leaves
-- true where it passes.
use mathlib.Core.Option.{some-injective}
use commerce_orchestrator_ap.Prelude.{
  ℕ, ◌+◌, ◌≤◌, ◌≡◌, refl, String, Bool, true, false, not, Option, none, some, List, [], ◌∷◌, find,
  any, if◌then◌else◌, Bool-cases, inl, inr, ◌⊎◌, ap, sym, ◌∙◌, subst, arith, All,
}
use commerce_orchestrator_ap.Prelude.Int.{ℤ, pos, ltb_ℤ, i64_max, IsI64, ◌≤ℤ◌}
use commerce_orchestrator_ap.Prelude.Texts.{str_eq, str_eq_sound}
use commerce_orchestrator_ap.Prelude.Parsing.{FitsI64}
use commerce_orchestrator_ap.Prelude.Eq.{string_eq}
use commerce_orchestrator_ap.Prelude.Dict.{lookup}
use commerce_orchestrator_ap.Runtime.Result.{Result, ok, err}
use commerce_orchestrator_ap.Api.Signing.Fields.{
  parse_byte_sequence, SignatureError, verification_failed, coverage_insufficient,
  algorithm_unsupported,
}
use commerce_orchestrator_ap.Api.Signing.Messages.{
  bytes_of, Crypto, MessageComponents, PublicKey, algorithm, http_signature_name, verify,
  base_lines, signature_base, check_coverage, check_created, check_expires, check_algorithm,
  judge_base,
}
use commerce_orchestrator_ap.Api.Signing.Times.{
  and_then-ok, or_error-ok, refused-unless, check_created-near,
}

nothing_found :
    (covered required : List String)
    → find (λ r. not (any (str_eq r) covered)) required ≡ none
    → All (λ r. any (str_eq r) covered ≡ true) required
nothing_found covered [] h = tt
nothing_found covered (r ∷ required) h = elim (Bool-cases (any (str_eq r) covered)) [
  | inl e ↦ (e, nothing_found covered required (rw e at h))
  | inr e ↦ absurd (let h2 = rw e at h in cc)
]

coverage_accepted :
    (found : Option String)
    → (elim found [ none ↦ ok tt | some name ↦ err (coverage_insufficient name) ]) ≡ ok tt
    → found ≡ none
coverage_accepted none h = refl
coverage_accepted (some r) h = absurd cc

pub check_coverage-All :
    (required covered : List String)
    → check_coverage required covered ≡ ok tt
    → All (λ r. any (str_eq r) covered ≡ true) required
check_coverage-All required covered h = nothing_found covered required (coverage_accepted _ h)

base_lines-present :
    (components : MessageComponents) (covered : List String) (text : String)
    → base_lines components covered ≡ ok text
    → (r : String) → any (str_eq r) covered ≡ true
    → (v : String) × (lookup r components ≡ some v)
base_lines-present components [] text h r in_it = absurd cc
base_lines-present components (name ∷ rest) text h r in_it =
    let (value, (one, h1)) = and_then-ok _ _ h in
    let (lines, (others, _)) = and_then-ok _ _ h1 in
    elim (Bool-cases (str_eq r name)) [
      | inl same ↦ (value, rw (str_eq_sound r name same) (or_error-ok _ _ one))
      | inr e ↦ base_lines-present components rest lines others r (rw e at in_it)
    ]

pub signature_base-present :
    (components : MessageComponents) (covered : List String) (params base : String)
    → signature_base components covered params ≡ ok base
    → (r : String) → any (str_eq r) covered ≡ true
    → (v : String) × (lookup r components ≡ some v)
unfolding signature_base
signature_base-present components covered params base h =
    let (lines, (read, _)) = and_then-ok _ _ h in base_lines-present components covered lines read

pub times_near :
    (n : ℕ) (created : Option ℤ)
    → n ≤ i64_max
    → FitsI64 created
    → check_created (pos n) created ≡ ok tt
    → (c : ℕ) → created ≡ some (pos c)
    → (n ≤ c + 300) × (c ≤ n + 300)
times_near n none hn fits h c e = absurd cc
times_near n (some z) hn fits h c e =
    let same : z ≡ pos c = some-injective _ _ e in
    check_created-near n c hn (subst IsI64 same fits).0
      (ap (λ x. check_created (pos n) (some x)) (sym same) ∙ h)

pub expires_late :
    (n : ℕ) (expires : Option ℤ)
    → check_expires (pos n) expires ≡ ok tt
    → (z : ℤ) → expires ≡ some z
    → pos n ≤ℤ z
expires_late n none h z e = absurd cc
expires_late n (some x) h z e =
    let same : x ≡ z = some-injective _ _ e in
    let late = refused-unless _ (ltb_ℤ x (pos n)) tt h in
    subst (λ y. pos n ≤ℤ y) same (not_less x n late)
  where
    not_less : (x : ℤ) (n : ℕ) → ltb_ℤ x (pos n) ≡ false → pos n ≤ℤ x
    not_less x n g = ground arith

pub algorithm_same :
    (key : PublicKey) (alg : Option String)
    → check_algorithm key alg ≡ ok tt
    → (a : String) → alg ≡ some a
    → a ≡ http_signature_name (algorithm key)
algorithm_same key none h a e = absurd cc
algorithm_same key (some x) h a e =
    let same : x ≡ a = some-injective _ _ e in
    subst (λ y. y ≡ http_signature_name (algorithm key)) same (str_eq_sound _ _ (granted _ h))
  where
    granted : (b : Bool) → (if b then ok tt else err (algorithm_unsupported x)) ≡ ok tt → b ≡ true
    granted true g = refl
    granted false g = absurd cc

pub judge_base-signed :
    (crypto : Crypto) (key : PublicKey) (base keyid kid : String) (bytes : List ℕ)
    → judge_base crypto key base bytes keyid ≡ ok kid
    → (kid ≡ keyid) × (verify crypto key base bytes ≡ true)
judge_base-signed crypto key base keyid kid bytes = signed_one (verify crypto key base bytes)
  where
    signed_one :
        (b : Bool)
        → (if b then ok keyid else err verification_failed) ≡ ok kid
        → (kid ≡ keyid) × (b ≡ true)
    signed_one true h = (cc, refl)
    signed_one false h = absurd cc

pub one_or_more :
    (r : Result SignatureError String) (next : SignatureError → Result SignatureError String)
    (kid : String)
    → (elim r [ ok k ↦ ok k | err e ↦ next e ]) ≡ ok kid
    → (r ≡ ok kid) ⊎ ((e : SignatureError) × (next e ≡ ok kid))
one_or_more (ok k) next kid h = inl h
one_or_more (err e) next kid h = inr (e, h)

-- Bytes that were read come from a text that was found.
pub bytes_of-some :
    (crypto : Crypto) (found : Option String) (bytes : List ℕ)
    → bytes_of crypto found ≡ some bytes
    → (text : String) × ((found ≡ some text)
        × (parse_byte_sequence crypto.decode_base64 text ≡ some bytes))
bytes_of-some crypto none bytes h = absurd cc
bytes_of-some crypto (some text) bytes h = (text, (refl, h))
