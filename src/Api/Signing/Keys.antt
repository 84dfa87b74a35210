-- ===== src/Api/Signing/Keys.antt =====
-- The keys of a ring are named apart, in VerifyingKeyring::from_entries of
-- crates/orchestrator-api/src/signing.rs.
use mathlib.Core.Option.{some-injective}
use mathlib.Core.List.{Memᴰ}
use mathlib.Core.List.Memᴰ.{head, tail, not-nil, cases_cons}
use commerce_orchestrator_ap.Prelude.{
  ◌≡◌, refl, String, Bool, true, false, some, List, [], ◌∷◌, any, append, if◌then◌else◌, Bool-cases,
  inl, inr, ap, sym, ◌∙◌, subst, arith,
}
use commerce_orchestrator_ap.Prelude.Texts.{str_eq, str_eq_sound, str_eq_refl, is_blank}
use commerce_orchestrator_ap.Prelude.Eq.{string_eq}
use commerce_orchestrator_ap.Prelude.Dict.{lookup}
use commerce_orchestrator_ap.Runtime.Result.{Result, ok, err}
use commerce_orchestrator_ap.Api.Signing.KeyError.{SigningKeyError}
use commerce_orchestrator_ap.Api.Signing.Messages.{
  VerifyingKeyring, PublicKey, check_kids, from_entries,
}

any-append :
    (p : String → Bool) (k : String) (seen : List String)
    → any p (append seen k) ≡ false
    → (any p seen ≡ false) × (p k ≡ false)
any-append p k [] h = ground arith
any-append p k (x ∷ seen) h = ground (arith, any-append p k seen)

two_tests :
    (b c : Bool) (e f : SigningKeyError) (r : Result SigningKeyError (Unit {0}))
    → (if b then err e else if c then err f else r) ≡ ok tt
    → (c ≡ false) × (r ≡ ok tt)
two_tests true c e f r h = absurd cc
two_tests false true e f r h = absurd cc
two_tests false false e f r h = (refl, h)

kids_step :
    (seen : List String) (k : String) (a : PublicKey) (entries : VerifyingKeyring)
    → check_kids seen ((k, a) ∷ entries) ≡ ok tt
    → (any (str_eq k) seen ≡ false) × (check_kids (append seen k) entries ≡ ok tt)
kids_step seen k a entries h = two_tests (is_blank k) (any (str_eq k) seen) _ _ _ h

-- The ids of a ring that the constructor accepts are new, one after the other.
check_kids-new :
    (seen : List String) (entries : VerifyingKeyring) (kid : String) (key : PublicKey)
    → check_kids seen entries ≡ ok tt
    → Memᴰ (kid, key) entries
    → any (str_eq kid) seen ≡ false
check_kids-new seen [] kid key h m = absurd (not-nil m)
check_kids-new seen ((k, a) ∷ entries) kid key h m =
    let (new, later) = kids_step seen k a entries h in
    elim (cases_cons m) [
      | inl e ↦ let same : kid ≡ k = ap (λ p. p.0) e in rw same new
      | inr at ↦
          (any-append (str_eq kid) k seen
            (check_kids-new (append seen k) entries kid key later at)).0
    ]

not_again :
    (seen : List String) (k : String) (entries : VerifyingKeyring) (key : PublicKey)
    → check_kids (append seen k) entries ≡ ok tt
    → Memᴰ (k, key) entries
    → ⊥
not_again seen k entries key later at =
    let twice =
      (any-append (str_eq k) k seen (check_kids-new (append seen k) entries k key later at)).1 in
    absurd (let always = str_eq_refl k in cc)

pub check_kids_unique :
    (seen : List String) (entries : VerifyingKeyring) (kid : String) (a b : PublicKey)
    → check_kids seen entries ≡ ok tt
    → Memᴰ (kid, a) entries
    → Memᴰ (kid, b) entries
    → a ≡ b
check_kids_unique seen [] kid a b h m n = absurd (not-nil m)
check_kids_unique seen ((k, x) ∷ entries) kid a b h m n =
    let (_, later) = kids_step seen k x entries h in
    elim (cases_cons m) [
      | inl e ↦ elim (cases_cons n) [
        | inl f ↦ ap (λ p. p.1) e ∙ sym (ap (λ p. p.1) f)
        | inr at ↦ absurd (
            not_again seen k entries b later
              (subst (λ i. Memᴰ (i, b) entries) (ap (λ p. p.0) e) at))
      ]
      | inr at ↦ elim (cases_cons n) [
        | inl f ↦ absurd (
            not_again seen k entries a later
              (subst (λ i. Memᴰ (i, a) entries) (ap (λ p. p.0) f) at))
        | inr too ↦ check_kids_unique (append seen k) entries kid a b later at too
      ]
    ]

pub from_entries-ok :
    (entries keys : VerifyingKeyring)
    → from_entries entries ≡ ok keys
    → (check_kids [] entries ≡ ok tt) × (entries ≡ keys)
unfolding from_entries
from_entries-ok entries keys h = accepted (check_kids [] entries) h
  where
    accepted :
        (r : Result SigningKeyError (Unit {0}))
        → (elim r [ ok _ ↦ ok entries | err e ↦ err e ]) ≡ ok keys
        → (r ≡ ok tt) × (entries ≡ keys)
    accepted (ok tt) g = (refl, cc)
    accepted (err e) g = absurd cc

pub lookup-Memᴰ :
    {V : Type 0} (k : String) (entries : List (String × V)) (v : V)
    → lookup k entries ≡ some v
    → Memᴰ (k, v) entries
unfolding lookup
lookup-Memᴰ k [] v h = absurd cc
lookup-Memᴰ k ((j, w) ∷ entries) v h = elim (Bool-cases (str_eq j k)) [
  | inl same ↦
      let it : w ≡ v = some-injective _ _ (rw same at h) in
      rw (str_eq_sound j k same, it) (head refl)
  | inr other ↦ tail (lookup-Memᴰ k entries v (rw other at h))
]
