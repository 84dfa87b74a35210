-- ===== src/Runtime/Runner/Delivery/Dedupe.antt =====
-- Repeated events and mandates in crates/orchestrator-runtime/src/runner.rs and
-- crates/orchestrator-runtime/src/effects.rs.
use commerce_orchestrator_ap.Prelude.{◌≡◌, refl, true, false, List, [], ◌∷◌, arith, String, any}
use commerce_orchestrator_ap.Prelude.Eq.{string_eq}
use commerce_orchestrator_ap.Prelude.Texts.{str_eq, eq_iff}
use commerce_orchestrator_ap.Runtime.Stores.Effects

-- The messages seen once `ms` have arrived.
abbrev pub after_all : List String → List String → List String
after_all [] seen = seen
after_all (m ∷ ms) seen = after_all ms (Effects.accept_once m seen).1

seen_once :
    (m : String) (seen : List String) → any (λ j. str_eq j m) (Effects.accept_once m seen).1 ≡ true
unfolding Effects.accept_once
seen_once m seen = ground (arith, eq_iff m m)

any-after_all :
    (m : String) (ms seen : List String)
    → any (λ j. str_eq j m) seen ≡ true
    → any (λ j. str_eq j m) (after_all ms seen) ≡ true
unfolding Effects.accept_once
any-after_all m [] seen h = h
any-after_all m (x ∷ ms) seen h = any-after_all m ms _ (ground arith)

-- An event is accepted at most once: once it has arrived, and whatever else arrives in between, a
-- further arrival of it is refused and changes nothing.
pub accept_once-after_all :
    (m : String) (ms seen : List String)
    → let later = after_all ms (Effects.accept_once m seen).1 in
      Effects.accept_once m later ≡ (false, later)
unfolding Effects.accept_once
accept_once-after_all m ms seen =
    let again = any-after_all m ms (Effects.accept_once m seen).1 (seen_once m seen) in
    rw again refl
