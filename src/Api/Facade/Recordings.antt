-- ===== src/Api/Facade/Recordings.antt =====
-- The mandates that are known after some recordings, in record_mandate of
-- crates/orchestrator-runtime/src/effects.rs.
use mathlib.Core.Option.{some-injective}
use commerce_orchestrator_ap.Prelude.{
  ◌≡◌, refl, sym, ap, ◌∙◌, String, Bool, true, false, Option, none, some, List, [], ◌∷◌,
  if◌then◌else◌, Bool-cases, inl, inr, All,
}
use commerce_orchestrator_ap.Prelude.Int.{ℤ, ltb_ℤ}
use commerce_orchestrator_ap.Prelude.Eq.{string_eq}
use commerce_orchestrator_ap.Prelude.Dict.{lookup, lookup-insert, lookup-insert_self}
use commerce_orchestrator_ap.Prelude.Texts.{str_eq, eq_iff}
use commerce_orchestrator_ap.Runtime.Stores.Effects
use commerce_orchestrator_ap.Runtime.Stores.Effects.{Mandates, purge, record_new}

-- The recordings of other mandates and of this one: the second, the mandate and its expiry.
abbrev pub Recording : Type 0
Recording = ℤ × (String × ℤ)

abbrev pub after_recordings : List Recording → Mandates → Mandates
after_recordings [] seen = seen
after_recordings ((now, (mandate_id, expires_at)) ∷ rest) seen =
    after_recordings rest (Effects.record_mandate now mandate_id expires_at seen).1

kept_or_not :
    (b : Bool) (k : String) (e : ℤ) (m : String) (rest : Mandates) {expiry : ℤ}
    → str_eq k m ≡ false
    → lookup m rest ≡ some expiry
    → lookup m (if b then (k, e) ∷ rest else rest) ≡ some expiry
unfolding lookup
kept_or_not true k e m rest other h = rw other h
kept_or_not false k e m rest other h = h

none_is_no_some : {x : ℤ} → none ≡ some x → ⊥
none_is_no_some h = cc

accepted_new :
    (found : Option ℤ) (m : String) (e : ℤ) (seen : Mandates)
    → (record_new found m e seen).0 ≡ true
    → lookup m (record_new found m e seen).1 ≡ some e
accepted_new (some x) m e seen h = cc
accepted_new none m e seen h = lookup-insert_self m e seen

lookup-purge :
    (m : String) (now expiry : ℤ) (seen : Mandates)
    → lookup m seen ≡ some expiry
    → ltb_ℤ now expiry ≡ true
    → lookup m (purge now seen) ≡ some expiry
unfolding lookup purge
lookup-purge m now expiry [] h live = h
lookup-purge m now expiry ((k, e) ∷ seen) h live = elim (Bool-cases (str_eq k m)) [
  | inl same ↦ let it : e ≡ expiry = some-injective _ _ (rw same at h) in rw (it, live, same) refl
  | inr other ↦
      let rest = lookup-purge m now expiry seen (rw other at h) live in
      kept_or_not (ltb_ℤ now e) k e m (purge now seen) other rest
]

recorded-keeps :
    (m : String) (expiry : ℤ) (found : Option ℤ) (id : String) (e : ℤ) (seen : Mandates)
    → lookup id seen ≡ found
    → lookup m seen ≡ some expiry
    → lookup m (record_new found id e seen).1 ≡ some expiry
recorded-keeps m expiry (some x) id e seen f h = h
recorded-keeps m expiry none id e seen f h = elim (Bool-cases (str_eq id m)) [
  | inl same ↦
      absurd (none_is_no_some (sym f ∙ (ap (λ k. lookup k seen) ((eq_iff id m).0 same) ∙ h)))
  | inr other ↦ rw (lookup-insert id m e seen, other) h
]

-- A live mandate stays recorded, and is refused.
pub recording-keeps :
    (m : String) (expiry : ℤ) (now : ℤ) (id : String) (e : ℤ) (seen : Mandates)
    → lookup m seen ≡ some expiry
    → ltb_ℤ now expiry ≡ true
    → lookup m (Effects.record_mandate now id e seen).1 ≡ some expiry
unfolding Effects.record_mandate
recording-keeps m expiry now id e seen h live =
    recorded-keeps m expiry (lookup id (purge now seen)) id e (purge now seen) refl
      (lookup-purge m now expiry seen h live)

pub recordings-keep :
    (m : String) (expiry : ℤ) (later : List Recording) (seen : Mandates)
    → lookup m seen ≡ some expiry
    → All (λ r. ltb_ℤ r.0 expiry ≡ true) later
    → lookup m (after_recordings later seen) ≡ some expiry
recordings-keep m expiry [] seen h live = h
recordings-keep m expiry ((now, (id, e)) ∷ rest) seen h live =
    recordings-keep m expiry rest _ (recording-keeps m expiry now id e seen h live.0) live.1

pub known-refused :
    (m : String) (expiry : ℤ) (now e : ℤ) (seen : Mandates)
    → lookup m seen ≡ some expiry
    → ltb_ℤ now expiry ≡ true
    → Effects.record_mandate now m e seen ≡ (false, purge now seen)
unfolding Effects.record_mandate
known-refused m expiry now e seen h live = rw (lookup-purge m now expiry seen h live) refl

pub accepted-known :
    (m : String) (now e : ℤ) (seen : Mandates)
    → (Effects.record_mandate now m e seen).0 ≡ true
    → lookup m (Effects.record_mandate now m e seen).1 ≡ some e
unfolding Effects.record_mandate
accepted-known m now e seen h = accepted_new (lookup m (purge now seen)) m e (purge now seen) h
