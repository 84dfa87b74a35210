-- ===== src/Prelude/Lists.antt =====
-- `Vec` and slice methods over the native numbers.
use Prim.Native.Nat.{ℕ, suc, ◌+◌}
use mathlib.Core.Path.{◌≡◌, refl}
use mathlib.Core.Logic.{◌↔◌, inl, inr}
use mathlib.Core.Bool.{Bool, true, false, ◌||◌, ◌&&◌}
use mathlib.Core.Option.{Option, none, some}
use mathlib.Core.List.{List, [], ◌∷◌, ◌++◌}
use native.Mathlib.Omega.{arith}
use commerce_orchestrator_ap.Prelude.Tests.{if◌then◌else◌, Bool-cases}

module _ {ℓ} {A : Type ℓ} where
  abbrev pub length : List A → ℕ
  length [] = 0
  length (_ ∷ xs) = suc (length xs)

  abbrev pub is_empty : List A → Bool
  is_empty [] = true
  is_empty (_ ∷ _) = false

  -- `push(x)`
  abbrev pub append : List A → A → List A
  append xs x = xs ++ x ∷ []

  -- `iter().any(p)`
  abbrev pub any : (A → Bool) → List A → Bool
  any p [] = false
  any p (x ∷ xs) = p x || any p xs

  -- `iter().all(p)`
  abbrev pub all : (A → Bool) → List A → Bool
  all p [] = true
  all p (x ∷ xs) = p x && all p xs

  -- `iter().find(p)`
  abbrev pub find : (A → Bool) → List A → Option A
  find p [] = none
  find p (x ∷ xs) = if p x then some x else find p xs

  -- `retain(p)`
  abbrev pub retain : (A → Bool) → List A → List A
  retain p [] = []
  retain p (x ∷ xs) = let rest = retain p xs in if p x then x ∷ rest else rest

  -- A write through `iter_mut().find(p)`: the first match is changed, if there is one.
  abbrev pub update_first : (A → Bool) → (A → A) → List A → List A
  update_first p f [] = []
  update_first p f (x ∷ xs) = let rest = update_first p f xs in if p x then f x ∷ xs else x ∷ rest

  -- A row of `if test { v.push(x) }` on an empty vector, as its tests and what each pushes.
  abbrev pub collect : List (Bool × A) → List A
  collect [] = []
  collect ((true, x) ∷ checks) = x ∷ collect checks
  collect ((false, x) ∷ checks) = collect checks

  pub length-append : (xs ys : List A) → length (xs ++ ys) ≡ length xs + length ys
  length-append [] ys = omega arith
  length-append (x ∷ xs) ys = omega (arith, length-append xs ys)

  pub length-update_first :
      (p : A → Bool) (f : A → A) (xs : List A) → length (update_first p f xs) ≡ length xs
  length-update_first p f [] = refl
  length-update_first p f (x ∷ xs) = ground (arith, length-update_first p f xs)

module _ {ℓ} {A : Type ℓ} (p : A → Bool) where
  -- What `find` returns passes the test.
  pub find_sound : (xs : List A) (x : A) → find p xs ≡ some x → p x ≡ true
  find_sound [] x h = cc
  find_sound (y ∷ ys) x h = ground (arith, find_sound ys x)

  -- Where `any` holds, `find` returns something.
  pub find-any : (xs : List A) → any p xs ≡ true → (x : A) × (find p xs ≡ some x)
  find-any [] h = cc
  find-any (y ∷ ys) h = elim (Bool-cases (p y)) [
    | inl e ↦ (y, rw e)
    | inr e ↦ rw e (find-any ys (rw e at h))
  ]

-- A predicate on every element, by recursion.
abbrev pub All {ℓ κ} : {A : Type ℓ} → (A → Type κ) → List A → Type κ
All P [] = Unit
All P (x ∷ xs) = P x × All P xs

pub any-eq-false {ℓ} :
    {A : Type ℓ} (p : A → Bool) (xs : List A) → (any p xs ≡ false) ↔ All (λ x. p x ≡ false) xs
any-eq-false p [] = (λ _. tt, λ _. refl)
any-eq-false p (x ∷ xs) = (
  λ h. (ground arith, (any-eq-false p xs).0 (ground arith)),
  λ h. rw (h.0) ((any-eq-false p xs).1 h.1),
)

-- Nothing is pushed exactly if every test fails.
pub collect-eq-nil {ℓ} :
    {A : Type ℓ} (checks : List (Bool × A)) → (collect checks ≡ []) ↔ All (λ c. c.0 ≡ false) checks
collect-eq-nil [] = (λ _. tt, λ _. refl)
collect-eq-nil ((true, x) ∷ checks) = (λ h. cc, λ h. cc (h.0))
collect-eq-nil ((false, x) ∷ checks) =
    (λ h. (refl, (collect-eq-nil checks).0 h), λ h. (collect-eq-nil checks).1 h.1)
