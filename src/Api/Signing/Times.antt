-- ===== src/Api/Signing/Times.antt =====
-- The times of a signature, in parse_signature_params and VerifyingKeyring::verify_one of
-- crates/orchestrator-api/src/signing.rs.
use commerce_orchestrator_ap.Prelude.{
  ℕ, ◌+◌, ◌-◌, ◌≤◌, ◌≡◌, refl, String, Bool, true, false, Option, none, some, List, [], ◌∷◌,
  if◌then◌else◌, ap, sym, ◌∙◌, subst, arith,
}
use commerce_orchestrator_ap.Prelude.Int.{
  ℤ, pos, negsuc, ltb_ℤ, i64_max, sub64, wrap64, ◌-ℤ◌, sub_ℕ,
}
use commerce_orchestrator_ap.Prelude.Texts.{str_is_empty, str_eq}
use commerce_orchestrator_ap.Prelude.Parsing.{FitsI64, parse_i64, parse_i64-FitsI64, split_once}
use commerce_orchestrator_ap.Runtime.Result.{Result, ok, err}
use commerce_orchestrator_ap.Api.Signing.Fields.{
  SignatureError, SignatureParams, and_then, or_error, set_param, set_params, or_flag,
  integer_value, string_value, parse_signature_params,
}
use commerce_orchestrator_ap.Api.Signing.Messages.{abs64, check_created}

pub and_then-ok :
    {A B : Type 0} (r : Result SignatureError A) (f : A → Result SignatureError B) {b : B}
    → and_then r f ≡ ok b
    → (a : A) × ((r ≡ ok a) × (f a ≡ ok b))
unfolding and_then
and_then-ok (ok a) f h = (a, (refl, h))
and_then-ok (err e) f h = absurd cc

pub or_error-ok :
    {A : Type 0} (e : SignatureError) (o : Option A) {a : A} → or_error e o ≡ ok a → o ≡ some a
or_error-ok e none h = absurd cc
or_error-ok e (some b) h = cc

-- The distance of two times that are not negative, which is exact.
sub64_exact : (n c : ℕ) → n ≤ i64_max → c ≤ i64_max → sub64 (pos n) (pos c) ≡ sub_ℕ n c
unfolding sub64 ◌-ℤ◌ wrap64
sub64_exact n c hn hc = ground arith

abs64-sub_ℕ : (n c : ℕ) → n ≤ i64_max → c ≤ i64_max → abs64 (sub_ℕ n c) ≡ pos (n - c + (c - n))
unfolding sub64 ◌-ℤ◌ wrap64
abs64-sub_ℕ n c hn hc = ground arith

far :
    (n c d : ℕ)
    → d ≡ n - c + (c - n)
    → ltb_ℤ (pos 300) (pos d) ≡ false
    → (n ≤ c + 300) × (c ≤ n + 300)
far n c d e h = ground arith

pub refused-unless :
    {A : Type 0} (e : SignatureError) (b : Bool) (a : A) {c : A}
    → (if b then err e else ok a) ≡ ok c
    → b ≡ false
refused-unless e true a h = absurd cc
refused-unless e false a h = refl

pub check_created-near :
    (n c : ℕ)
    → n ≤ i64_max
    → c ≤ i64_max
    → check_created (pos n) (some (pos c)) ≡ ok tt
    → (n ≤ c + 300) × (c ≤ n + 300)
check_created-near n c hn hc h =
    let measured = ap abs64 (sub64_exact n c hn hc) ∙ abs64-sub_ℕ n c hn hc in
    far n c (n - c + (c - n)) refl (
      sym (ap (ltb_ℤ (pos 300)) measured)
      ∙ refused-unless _ (ltb_ℤ (pos 300) (abs64 (sub64 (pos n) (pos c)))) tt h)

pub if_either :
    {A P : Type 0} (b : Bool) {x y r : A} → (x ≡ r → P) → (y ≡ r → P) → (if b then x else y) ≡ r → P
if_either true f g h = f h
if_either false f g h = g h

-- What a parameter sets, `created` or another one.
created_set :
    (e : SignatureError) (o : Option ℤ) (parsed after : SignatureParams)
    → FitsI64 o
    → and_then (or_error e o) (λ z. ok (record parsed { created = some z })) ≡ ok after
    → FitsI64 after.created
unfolding and_then
created_set e none parsed after fits h = absurd cc
created_set e (some z) parsed after fits h =
    let same : record parsed { created = some z } ≡ after = cc in
    subst (λ p. FitsI64 p.created) same fits

other_set :
    {A : Type 0} (r : Result SignatureError A) (f : A → SignatureParams) (before : Option ℤ)
    (after : SignatureParams)
    → ((a : A) → (f a).created ≡ before)
    → FitsI64 before
    → and_then r (λ a. ok (f a)) ≡ ok after
    → FitsI64 after.created
other_set r f before after kept fits h =
    let (a, (_, e)) = and_then-ok r (λ a. ok (f a)) h in
    let same : f a ≡ after = cc in subst FitsI64 (sym (kept a) ∙ ap (λ p. p.created) same) fits

set_param-FitsI64 :
    (parsed after : SignatureParams) (name value : String)
    → FitsI64 parsed.created
    → set_param parsed (name, value) ≡ ok after
    → FitsI64 after.created
unfolding set_param
set_param-FitsI64 parsed after name value fits =
    if_either (str_eq name "created")
      (created_set _ (parse_i64 value) parsed after (parse_i64-FitsI64 value))
      (if_either (str_eq name "expires")
        (other_set (integer_value name value) (λ z. record parsed { expires = some z })
          parsed.created after (λ _. refl) fits)
        (if_either (str_eq name "keyid")
          (other_set (string_value name value) (λ s. record parsed { keyid = s }) parsed.created
            after (λ _. refl) fits)
          (if_either (str_eq name "alg")
            (other_set (string_value name value) (λ s. record parsed { alg = some s })
              parsed.created after (λ _. refl) fits)
            (λ h. let same : parsed ≡ after = cc in subst (λ p. FitsI64 p.created) same fits))))

set_params-FitsI64 :
    (params : List String) (parsed after : SignatureParams)
    → FitsI64 parsed.created
    → set_params params parsed ≡ ok after
    → FitsI64 after.created
set_params-FitsI64 [] parsed after fits h =
    let same : parsed ≡ after = cc in subst (λ p. FitsI64 p.created) same fits
set_params-FitsI64 (param ∷ rest) parsed after fits h =
    let (name, value) = or_flag param (split_once b'=' param) in
    let (next, (one, others)) =
      and_then-ok (set_param parsed (or_flag param (split_once b'=' param))) (set_params rest) h in
    set_params-FitsI64 rest next after (set_param-FitsI64 parsed next _ _ fits one) others

-- A creation time that the parameters carry is an `i64`.
pub parse_signature_params-FitsI64 :
    (raw : String) (params : SignatureParams)
    → parse_signature_params raw ≡ ok params
    → FitsI64 params.created
unfolding parse_signature_params
parse_signature_params-FitsI64 raw params h =
    let (rest, (_, h1)) = and_then-ok _ _ h in
    let ((list, texts), (_, h2)) = and_then-ok _ _ h1 in
    let (covered, (_, h3)) = and_then-ok _ _ h2 in
    let (parsed, (read, h4)) = and_then-ok _ _ h3 in
    let fits = set_params-FitsI64 _ _ parsed tt read in
    if_either (str_is_empty parsed.keyid) (λ e. absurd cc)
      (λ e. let same : parsed ≡ params = cc in subst (λ p. FitsI64 p.created) same fits) h4

-- A creation time of 2 ^ 63 seconds before the clock passes the test of the window, since the
-- difference wraps to the least `i64`, which is its own absolute value.
oldest_created-passes :
    (n : ℕ) → n ≤ i64_max → check_created (pos n) (some (negsuc (i64_max - n))) ≡ ok tt
unfolding sub64 ◌-ℤ◌ wrap64
oldest_created-passes n h = ground arith
