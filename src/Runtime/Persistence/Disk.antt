-- ===== src/Runtime/Persistence/Disk.antt =====
-- load_json and save_json of crates/orchestrator-runtime/src/persistence/file_backed.rs. A file is
-- known by what serde_json makes of it, and serde_json reads back a value that it wrote.
use commerce_orchestrator_ap.Prelude.{ℕ, ◌+◌, String, Bool, true, false, Option, none, some}
use commerce_orchestrator_ap.Runtime.Result.{Result, ok, err}

-- crates/orchestrator-runtime/src/store_error.rs
pub data StoreError : Type 0 where
  persistence_failed : String → StoreError

-- No file, one that cannot be read or parsed, or a value.
pub data Contents (T : Type 0) : Type 0 where
  absent unreadable : Contents T
  json : T → Contents T

-- What a write that failed may leave.
pub data Left : Type 0 where
  as_before torn as_written : Left

-- The file system, at the moment of each write.
pub record Disk : Type 0 where
  pub fault : ℕ → Option String
  pub left : ℕ → Left

-- A store: its value in memory, its file, and the number of writes so far.
pub record Backed (T : Type 0) : Type 0 where
  pub memory : T
  pub file : Contents T
  pub moment : ℕ

abbrev pub B : Type 0 → Type 0 → Type 0
B T A = Backed T → Result StoreError A × Backed T

abbrev pub answering : {A : Type 0} → A → Result StoreError (Unit {0}) → Result StoreError A
answering a (ok _) = ok a
answering a (err e) = err e

module _ {T : Type 0} where
  -- `load_json(&path).await.unwrap_or_default()`
  unfoldable pub load_or_default : T → Contents T → T
  load_or_default default absent = default
  load_or_default default unreadable = default
  load_or_default default (json value) = value

  -- `open(path)` of each store, over the file that an earlier process left.
  unfoldable pub reopen : T → Backed T → Backed T
  reopen default b = record b { memory = load_or_default default b.file }

  abbrev pub after_fault : Left → T → Contents T → Contents T
  after_fault as_before value file = file
  after_fault torn value file = unreadable
  after_fault as_written value file = json value

  abbrev written : Option String → Left → B T (Unit {0})
  written none left b = (ok tt, record b { file = json b.memory; moment = b.moment + 1 })
  written (some e) left b = (
    err (persistence_failed e),
    record b { file = after_fault left b.memory b.file; moment = b.moment + 1 },
  )

  module _ (disk : Disk) where
    -- `save_json`
    unfoldable pub save : B T (Unit {0})
    save b = written (disk.fault b.moment) (disk.left b.moment) b

    -- A change in memory, `self.save().await?`, and an answer.
    unfoldable pub write_through : {A : Type 0} → (T → T) → A → B T A
    write_through f a b = let (r, c) = save (record b { memory = f b.memory }) in (answering a r, c)

    -- The same where the change answers, and is saved only where it is one.
    unfoldable pub write_if : {A : Type 0} → Bool → T → A → B T A
    write_if true value a b = write_through (λ _. value) a b
    write_if false value a b = (ok a, b)
