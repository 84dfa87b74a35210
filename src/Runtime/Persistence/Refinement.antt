-- ===== src/Runtime/Persistence/Refinement.antt =====
-- The file-backed idempotency store of crates/orchestrator-runtime/src/persistence/file_backed.rs
-- against the in-memory one of crates/orchestrator-runtime/src/idempotency.rs.
use commerce_orchestrator_ap.Prelude.{
  ℕ, ◌+◌, String, ◌≡◌, refl, Bool, true, false, Option, none, some, List, [], ◌∷◌, map, All,
  if◌then◌else◌,
}
use commerce_orchestrator_ap.Prelude.Eq.{string_eq}
use commerce_orchestrator_ap.Prelude.Dict.{
  lookup, insert, remove, lookup-insert, lookup-remove, lookup-insert_self,
}
use commerce_orchestrator_ap.Core.Contract.{TransactionResult}
use commerce_orchestrator_ap.Runtime.Result.{Result, ok, err}
use commerce_orchestrator_ap.Runtime.Stores.Idempotency
use commerce_orchestrator_ap.Runtime.Stores.Idempotency.{
  IdempotencyKey, key_eq, eq_key, IdempotencyState, in_flight, completed, IdempotencyMap,
  is_in_flight,
}
use commerce_orchestrator_ap.Runtime.Persistence.Disk.{
  StoreError, persistence_failed, json, Disk, Backed, B, load_or_default, reopen, save,
  write_through,
}
use commerce_orchestrator_ap.Runtime.Persistence.Keys.{idempotency_key_str, is_plain, key_str-eq}
use commerce_orchestrator_ap.Runtime.Persistence.FileBacked
use commerce_orchestrator_ap.Runtime.Persistence.FileBacked.{States, claim_key}

-- What a process may ask of the store, a restart among it.
pub data Request : Type 0 where
  claim release : IdempotencyKey → Request
  complete : IdempotencyKey → TransactionResult → Request
  restart : Request

abbrev pub is_plain_request : Request → Bool
is_plain_request (claim key) = is_plain key
is_plain_request (release key) = is_plain key
is_plain_request (complete key result) = is_plain key
is_plain_request restart = true

-- What the in-memory store answers, were the process never to restart.
abbrev pub ideal : Request → IdempotencyMap → Option IdempotencyState × IdempotencyMap
ideal (claim key) m = Idempotency.claim key m
ideal (release key) m = (none, Idempotency.release key m)
ideal (complete key result) m = (none, Idempotency.complete key result m)
ideal restart m = (none, m)

abbrev pub ideals : List Request → IdempotencyMap → List (Option IdempotencyState)
ideals [] m = []
ideals (r ∷ rs) m = let (a, n) = ideal r m in a ∷ ideals rs n

abbrev silent :
    Result StoreError (Unit {0}) × Backed States
    → Result StoreError (Option IdempotencyState) × Backed States
silent (ok _, b) = (ok none, b)
silent (err e, b) = (err e, b)

module _ (disk : Disk) where
  abbrev pub actual : Request → B States (Option IdempotencyState)
  actual (claim key) b = FileBacked.claim disk key b
  actual (release key) b = silent (FileBacked.release disk key b)
  actual (complete key result) b = silent (FileBacked.complete disk key result b)
  actual restart b = (ok none, reopen [] b)

  abbrev pub actuals :
      List Request → Backed States → List (Result StoreError (Option IdempotencyState))
  actuals [] b = []
  actuals (r ∷ rs) b = let (a, c) = actual r b in a ∷ actuals rs c

-- The store stands for the map on every plain key, and so does what a restart would load.
pub record Represents (b : Backed States) (m : IdempotencyMap) : Type 0 where
  pub agrees :
      (k : IdempotencyKey)
      → is_plain k ≡ true
      → lookup (idempotency_key_str k) b.memory ≡ lookup k m
  pub saved : load_or_default [] b.file ≡ b.memory

insert-agrees :
    (k : IdempotencyKey) (v : IdempotencyState) (d : States) (m : IdempotencyMap)
    → is_plain k ≡ true
    → ((j : IdempotencyKey) → is_plain j ≡ true → lookup (idempotency_key_str j) d ≡ lookup j m)
    → (j : IdempotencyKey) → is_plain j ≡ true
    → lookup (idempotency_key_str j) (insert (idempotency_key_str k) v d) ≡ lookup j (insert k v m)
insert-agrees k v d m h same j g =
    rw
      (
        lookup-insert (idempotency_key_str k) (idempotency_key_str j) v d,
        lookup-insert k j v m,
        key_str-eq k j h g,
        same j g,
      )
      refl

remove-agrees :
    (k : IdempotencyKey) (d : States) (m : IdempotencyMap)
    → is_plain k ≡ true
    → ((j : IdempotencyKey) → is_plain j ≡ true → lookup (idempotency_key_str j) d ≡ lookup j m)
    → (j : IdempotencyKey) → is_plain j ≡ true
    → lookup (idempotency_key_str j) (remove (idempotency_key_str k) d) ≡ lookup j (remove k m)
remove-agrees k d m h same j g =
    rw
      (
        lookup-remove (idempotency_key_str k) (idempotency_key_str j) d,
        lookup-remove k j m,
        key_str-eq k j h g,
        same j g,
      )
      refl

record Follows (outcome : Result StoreError (Option IdempotencyState) × Backed States)
    (wanted : Option IdempotencyState × IdempotencyMap) : Type 0 where
  answer : outcome.0 ≡ ok wanted.0
  represents : Represents outcome.1 wanted.1

module _ (disk : Disk) (faultless : (n : ℕ) → disk.fault n ≡ none) where
  -- A write to a disk that takes it.
  abbrev stored : (States → States) → Backed States → Backed States
  stored f b = record { memory = f b.memory; file = json (f b.memory); moment = b.moment + 1 }

  write-stored :
      {A : Type 0} (f : States → States) (a : A) (b : Backed States)
      → write_through disk f a b ≡ (ok a, stored f b)
  unfolding write_through save
  write-stored f a b = rw (faultless b.moment) refl

  stored-Represents :
      (f : States → States) (b : Backed States) (m : IdempotencyMap)
      → ((k : IdempotencyKey)
          → is_plain k ≡ true
          → lookup (idempotency_key_str k) (f b.memory) ≡ lookup k m)
      → Represents (stored f b) m
  unfolding load_or_default
  stored-Represents f b m h = record { agrees = h; saved = refl }

  abbrev without : Option IdempotencyState
  without = none

  claim-Follows :
      (found : Option IdempotencyState) (key : IdempotencyKey) (b : Backed States)
      (m : IdempotencyMap)
      → is_plain key ≡ true
      → Represents b m
      → Follows
          (claim_key disk found (idempotency_key_str key) b)
          (found, Idempotency.claimed found key m)
  claim-Follows (some state) key b m h r = record { answer = refl; represents = r }
  claim-Follows none key b m h r =
      rw (write-stored (insert (idempotency_key_str key) in_flight) without b) (record {
        answer = refl;
        represents =
            stored-Represents (insert (idempotency_key_str key) in_flight) b _
              (insert-agrees key in_flight b.memory m h r.agrees);
      })

  release-Follows :
      (held : Bool) (key : IdempotencyKey) (b : Backed States) (m : IdempotencyMap)
      → is_plain key ≡ true
      → Represents b m
      → Follows
          (silent (
            if held
            then write_through disk (remove (idempotency_key_str key)) tt b
            else (ok tt, b)))
          (none, if held then remove key m else m)
  release-Follows false key b m h r = record { answer = refl; represents = r }
  release-Follows true key b m h r =
      rw (write-stored (remove (idempotency_key_str key)) tt b) (record {
        answer = refl;
        represents =
            stored-Represents (remove (idempotency_key_str key)) b _
              (remove-agrees key b.memory m h r.agrees);
      })

  actual-Follows :
      (request : Request) (b : Backed States) (m : IdempotencyMap)
      → is_plain_request request ≡ true
      → Represents b m
      → Follows (actual disk request b) (ideal request m)
  unfolding FileBacked.claim FileBacked.release FileBacked.complete Idempotency.claim
      Idempotency.release Idempotency.complete reopen
  actual-Follows (claim key) b m h r =
      rw (r.agrees key h) (claim-Follows (lookup key m) key b m h r)
  actual-Follows (release key) b m h r =
      rw (r.agrees key h) (release-Follows (is_in_flight (lookup key m)) key b m h r)
  actual-Follows (complete key result) b m h r =
      rw (write-stored (insert (idempotency_key_str key) (completed result)) tt b) (record {
        answer = refl;
        represents =
            stored-Represents (insert (idempotency_key_str key) (completed result)) b _
              (insert-agrees key (completed result) b.memory m h r.agrees);
      })
  actual-Follows restart b m h r = record {
    answer = refl;
    represents = record { agrees = λ k g. rw (r.saved) (r.agrees k g); saved = refl };
  }

  -- On a disk that takes every write, and for keys whose tenant and merchant hold no bar, the
  -- file-backed store answers any sequence of claims, completions, releases and restarts as the
  -- in-memory store would that is never restarted.
  pub file_backed-refines :
      (requests : List Request) (b : Backed States) (m : IdempotencyMap)
      → All (λ r. is_plain_request r ≡ true) requests
      → Represents b m
      → actuals disk requests b ≡ map ok (ideals requests m)
  file_backed-refines [] b m plain r = refl
  file_backed-refines (x ∷ xs) b m plain r =
      let step = actual-Follows x b m plain.0 r in
      rw (step.answer, file_backed-refines xs _ _ plain.1 step.represents) refl

-- A claim of a free key whose write fails is refused, and yet takes the key: the next claim, however
-- the disk then does, finds it in flight.
pub failed_claim_takes_key :
    (disk later : Disk) (key : IdempotencyKey) (b : Backed States) (e : String)
    → lookup (idempotency_key_str key) b.memory ≡ none
    → disk.fault b.moment ≡ some e
    → let (r, c) = FileBacked.claim disk key b in
      (r ≡ err (persistence_failed e)) × (FileBacked.claim later key c ≡ (ok (some in_flight), c))
unfolding FileBacked.claim write_through save
failed_claim_takes_key disk later key b e free fails =
    rw (free, fails, lookup-insert_self (idempotency_key_str key) in_flight b.memory) (refl, refl)
