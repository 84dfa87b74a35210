-- ===== src/Runtime/Monad/Post.antt =====
-- Postconditions of methods: one for a result and one for an error, each about the state that is
-- left; and the rules to prove them along a `do` block.
use commerce_orchestrator_ap.Prelude.{
  List, [], ◌∷◌, Option, none, some, Bool, true, false, if◌then◌else◌,
}
use commerce_orchestrator_ap.Runtime.Result.{Result, ok, err}
use commerce_orchestrator_ap.Runtime.Monad.{
  RunnerError, Stores, M, pure, raise, gets, or_raise, continue, ◌>>=◌, raise_if, on_error,
  otherwise, for_each,
}

-- The outcome of a method meets `Q` if it is a result, and `E` if it is an error.
abbrev pub Holds :
    {A : Type 0}
    → (A → Stores → Type 0)
    → (RunnerError → Stores → Type 0)
    → Result RunnerError A × Stores
    → Type 0
Holds Q E (ok a, s) = Q a s
Holds Q E (err e, s) = E e s

pub record Post {A : Type 0} (Q : A → Stores → Type 0) (E : RunnerError → Stores → Type 0)
    (outcome : Result RunnerError A × Stores) : Type 0 where
  pub holds : Holds Q E outcome

module _ {A B : Type 0} {R : A → Stores → Type 0} {Q : B → Stores → Type 0}
    {D E : RunnerError → Stores → Type 0} where
  continue-Post :
      (r : Result RunnerError A) (s : Stores) (f : A → M B)
      → Post R D (r, s)
      → ((a : A) (t : Stores) → R a t → Post Q E (f a t))
      → ((e : RunnerError) (t : Stores) → D e t → E e t)
      → Post Q E (continue r f s)
  continue-Post (ok a) s f h next fail = next a s h.holds
  continue-Post (err e) s f h next fail = record { holds = fail e s h.holds }

  -- A block: its first line by its own postcondition, and the rest from there.
  pub bind-Post :
      (m : M A) (f : A → M B) (s : Stores)
      → Post R D (m s)
      → ((a : A) (t : Stores) → R a t → Post Q E (f a t))
      → ((e : RunnerError) (t : Stores) → D e t → E e t)
      → Post Q E ((m >>= f) s)
  unfolding ◌>>=◌
  bind-Post m f s h next fail = let (r, t) = m s in continue-Post r t f h next fail

-- A relation between the stores before and after, on which methods are judged step by step.
pub record Order (R : Stores → Stores → Type 0) : Type 0 where
  pub same : (s : Stores) → R s s
  pub join : (s t u : Stores) → R s t → R t u → R s u

-- `m` moves the stores only along `R`, whether it returns or fails.
pub record Moves (R : Stores → Stores → Type 0) {A : Type 0} (m : M A) : Type 0 where
  pub at : (s : Stores) → R s (m s).1

module _ {R : Stores → Stores → Type 0} (o : Order R) where
  module _ {A : Type 0} where
    pub Moves-pure : (a : A) → Moves R (pure a)
    unfolding pure
    Moves-pure a = record { at = o.same }

    pub Moves-raise : (e : RunnerError) → Moves R (raise {A = A} e)
    unfolding raise
    Moves-raise e = record { at = o.same }

    pub Moves-gets : (f : Stores → A) → Moves R (gets f)
    unfolding gets
    Moves-gets f = record { at = o.same }

    pub Moves-or_raise : (a : Option A) (e : RunnerError) → Moves R (or_raise a e)
    unfolding or_raise
    Moves-or_raise none e = record { at = o.same }
    Moves-or_raise (some a) e = record { at = o.same }

    otherwise-moves :
        (r : Result RunnerError A) (cleanup : M (Unit {0})) (s t : Stores)
        → R s t
        → Moves R cleanup
        → R s (otherwise r cleanup t).1
    otherwise-moves (ok a) cleanup s t h k = h
    otherwise-moves (err e) cleanup s t h k = o.join s t (cleanup t).1 h (k.at t)

    pub Moves-on_error :
        (m : M A) (cleanup : M (Unit {0}))
        → Moves R m
        → Moves R cleanup
        → Moves R (on_error m cleanup)
    unfolding on_error
    Moves-on_error m cleanup h k = record {
      at = λ s. otherwise-moves (m s).0 cleanup s (m s).1 (h.at s) k;
    }

  pub Moves-raise_if : (b : Bool) (e : RunnerError) → Moves R (raise_if b e)
  unfolding raise_if
  Moves-raise_if true e = record { at = o.same }
  Moves-raise_if false e = record { at = o.same }

  module _ {A B : Type 0} where
    continue-moves :
        (r : Result RunnerError A) (f : A → M B) (s t : Stores)
        → R s t
        → ((a : A) → Moves R (f a))
        → R s (continue r f t).1
    continue-moves (ok a) f s t h k = o.join s t (f a t).1 h ((k a).at t)
    continue-moves (err e) f s t h k = h

    -- A block: its first line, then the rest.
    pub Moves-bind :
        {m : M A} {f : A → M B} → Moves R m → ((a : A) → Moves R (f a)) → Moves R (m >>= f)
    unfolding ◌>>=◌
    Moves-bind {m} {f} h k = record { at = λ s. continue-moves (m s).0 f s (m s).1 (h.at s) k }

  pub Moves-for_each :
      {A : Type 0} (xs : List A) (body : A → M (Unit {0}))
      → ((a : A) → Moves R (body a))
      → Moves R (for_each xs body)
  unfolding for_each
  Moves-for_each [] body h = Moves-pure tt
  Moves-for_each (x ∷ xs) body h = Moves-bind (h x) (λ _. Moves-for_each xs body h)

-- Whenever `m` returns, its result satisfies `P`.
pub record Yields {A : Type 0} (P : A → Type 0) (m : M A) : Type 0 where
  pub at : (s : Stores) → Holds (λ a _. P a) (λ _ _. Unit) (m s)

module _ {R : Stores → Stores → Type 0} (o : Order R) {A B : Type 0} {P : A → Type 0} where
  continue-yields :
      (r : Result RunnerError A) (f : A → M B) (s t : Stores)
      → R s t
      → Holds (λ a _. P a) (λ _ _. Unit) (r, t)
      → ((a : A) → P a → Moves R (f a))
      → R s (continue r f t).1
  continue-yields (ok a) f s t h y k = o.join s t (f a t).1 h ((k a y).at t)
  continue-yields (err e) f s t h y k = h

  -- The rest may use what the first line's result satisfies.
  pub Moves-bind-Yields :
      {m : M A} {f : A → M B}
      → Moves R m
      → Yields P m
      → ((a : A) → P a → Moves R (f a))
      → Moves R (m >>= f)
  unfolding ◌>>=◌
  Moves-bind-Yields {m} {f} h y k = record {
    at = λ s. continue-yields (m s).0 f s (m s).1 (h.at s) (y.at s) k;
  }

module _ {A B : Type 0} {P : B → Type 0} where
  continue-result :
      (r : Result RunnerError A) (f : A → M B) (s : Stores)
      → ((a : A) → Yields P (f a))
      → Holds (λ b _. P b) (λ _ _. Unit) (continue r f s)
  continue-result (ok a) f s h = (h a).at s
  continue-result (err e) f s h = tt

  pub Yields-bind : (m : M A) (f : A → M B) → ((a : A) → Yields P (f a)) → Yields P (m >>= f)
  unfolding ◌>>=◌
  Yields-bind m f h = record { at = λ s. continue-result (m s).0 f (m s).1 h }

module _ {A B : Type 0} {P : A → Type 0} {Q : B → Type 0} where
  continue-both :
      (r : Result RunnerError A) (f : A → M B) (s : Stores)
      → Holds (λ a _. P a) (λ _ _. Unit) (r, s)
      → ((a : A) → P a → Yields Q (f a))
      → Holds (λ b _. Q b) (λ _ _. Unit) (continue r f s)
  continue-both (ok a) f s y h = (h a y).at s
  continue-both (err e) f s y h = tt

  pub Yields-after :
      {m : M A} {f : A → M B} → Yields P m → ((a : A) → P a → Yields Q (f a)) → Yields Q (m >>= f)
  unfolding ◌>>=◌
  Yields-after {m} {f} y h = record { at = λ s. continue-both (m s).0 f (m s).1 (y.at s) h }

pub Yields-pure : {A : Type 0} {P : A → Type 0} (a : A) → P a → Yields P (pure a)
unfolding pure
Yields-pure a h = record { at = λ s. h }

both_hold :
    {A : Type 0} (P Q : A → Type 0) (o : Result RunnerError A × Stores)
    → Holds (λ a _. P a) (λ _ _. Unit) o
    → Holds (λ a _. Q a) (λ _ _. Unit) o
    → Holds (λ a _. P a × Q a) (λ _ _. Unit) o
both_hold P Q (ok a, s) h k = (h, k)
both_hold P Q (err e, s) h k = tt

pub Yields-and :
    {A : Type 0} {P Q : A → Type 0} {m : M A} → Yields P m → Yields Q m → Yields (λ a. P a × Q a) m
Yields-and {P} {Q} {m} h k = record { at = λ s. both_hold P Q (m s) (h.at s) (k.at s) }

pub Yields-if :
    {A : Type 0} {P : A → Type 0} (b : Bool) (m n : M A)
    → Yields P m
    → Yields P n
    → Yields P (if b then m else n)
Yields-if true m n h k = h
Yields-if false m n h k = k

module _ {R : Stores → Stores → Type 0} {A : Type 0} where
  pub Moves-if : (b : Bool) (m n : M A) → Moves R m → Moves R n → Moves R (if b then m else n)
  Moves-if true m n h k = h
  Moves-if false m n h k = k

abbrev pub Ends : {A : Type 0} → (Stores → Type 0) → Result RunnerError A × Stores → Type 0
Ends P = Post (λ _ t. P t) (λ _ t. P t)

ends-holds :
    {A : Type 0} (P : Stores → Type 0) (r : Result RunnerError A) (t : Stores)
    → Holds (λ _ u. P u) (λ _ u. P u) (r, t)
    → P t
ends-holds P (ok a) t h = h
ends-holds P (err e) t h = h

Holds-ends :
    {A : Type 0} (P : Stores → Type 0) (r : Result RunnerError A) (t : Stores)
    → P t
    → Holds (λ _ u. P u) (λ _ u. P u) (r, t)
Holds-ends P (ok a) t h = h
Holds-ends P (err e) t h = h

-- A fact about the stores that a method leaves, however it ends, and the way back.
pub Ends-elim :
    {A : Type 0} (P : Stores → Type 0) (o : Result RunnerError A × Stores) → Ends P o → P o.1
Ends-elim P o h = ends-holds P o.0 o.1 h.holds

pub Ends-intro :
    {A : Type 0} (P : Stores → Type 0) (o : Result RunnerError A × Stores) → P o.1 → Ends P o
Ends-intro P o h = record { holds = Holds-ends P o.0 o.1 h }

module _ {A : Type 0} {Q : A → Stores → Type 0} {E : RunnerError → Stores → Type 0} where
  result-and :
      (P : Stores → Type 0) (r : Result RunnerError A) (t : Stores)
      → Post Q E (r, t)
      → P t
      → Post (λ a u. Q a u × P u) (λ e u. E e u × P u) (r, t)
  result-and P (ok a) t h k = record { holds = (h.holds, k) }
  result-and P (err e) t h k = record { holds = (h.holds, k) }

  -- A postcondition together with a fact about the stores that are left.
  pub Post-and :
      (P : Stores → Type 0) (o : Result RunnerError A × Stores)
      → Post Q E o
      → P o.1
      → Post (λ a u. Q a u × P u) (λ e u. E e u × P u) o
  Post-and P o h k = result-and P o.0 o.1 h k

  otherwise-Post :
      (F : RunnerError → Stores → Type 0) (r : Result RunnerError A) (cleanup : M (Unit {0}))
      (t : Stores)
      → Post Q E (r, t)
      → ((e : RunnerError) (u : Stores) → E e u → F e (cleanup u).1)
      → Post Q F (otherwise r cleanup t)
  otherwise-Post F (ok a) cleanup t h k = record { holds = h.holds }
  otherwise-Post F (err e) cleanup t h k = record { holds = k e t h.holds }

  pub on_error-Post :
      (F : RunnerError → Stores → Type 0) (m : M A) (cleanup : M (Unit {0})) (t : Stores)
      → Post Q E (m t)
      → ((e : RunnerError) (u : Stores) → E e u → F e (cleanup u).1)
      → Post Q F (on_error m cleanup t)
  unfolding on_error
  on_error-Post F m cleanup t h k = otherwise-Post F (m t).0 cleanup (m t).1 h k

  pub Post-if :
      (b : Bool) (m n : M A) (t : Stores)
      → Post Q E (m t)
      → Post Q E (n t)
      → Post Q E ((if b then m else n) t)
  Post-if true m n t h k = h
  Post-if false m n t h k = k
