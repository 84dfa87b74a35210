-- ===== src/Runtime/Stores/Idempotency.antt =====
-- crates/orchestrator-runtime/src/idempotency.rs
use commerce_orchestrator_ap.Prelude.{
  String, ◌≡◌, ◌↔◌, Bool, true, false, ◌&&◌, Option, none, some, arith, if◌then◌else◌,
}
use commerce_orchestrator_ap.Prelude.Texts.{str_eq, eq_iff}
use commerce_orchestrator_ap.Prelude.Eq.{Eq}
use commerce_orchestrator_ap.Prelude.Dict.{Dict, lookup, insert, remove}
use commerce_orchestrator_ap.Core.Contract.{TransactionResult}

pub record IdempotencyKey : Type 0 where
  pub tenant_id : String
  pub merchant_id : String
  pub key : String

abbrev pub eq_key : IdempotencyKey → IdempotencyKey → Bool
eq_key a b =
    str_eq a.tenant_id b.tenant_id && (str_eq a.merchant_id b.merchant_id && str_eq a.key b.key)

pub eq_key_iff : (a b : IdempotencyKey) → (eq_key a b ≡ true) ↔ (a ≡ b)
eq_key_iff a b = (
  λ h. ground (
    arith,
    eq_iff a.tenant_id b.tenant_id,
    eq_iff a.merchant_id b.merchant_id,
    eq_iff a.key b.key,
  ),
  λ h. ground (
    arith,
    eq_iff a.tenant_id b.tenant_id,
    eq_iff a.merchant_id b.merchant_id,
    eq_iff a.key b.key,
  ),
)

instance abbrev pub key_eq : Eq IdempotencyKey
key_eq = record { beq = eq_key; beq_iff = eq_key_iff }

pub data IdempotencyState : Type 0 where
  in_flight : IdempotencyState
  completed : TransactionResult → IdempotencyState

abbrev pub IdempotencyMap : Type 0
IdempotencyMap = Dict IdempotencyKey IdempotencyState

-- What `claim` returns, and what it leaves: an entry that was there is returned, and otherwise the
-- key is taken.
abbrev pub claimed : Option IdempotencyState → IdempotencyKey → IdempotencyMap → IdempotencyMap
claimed (some _) key map = map
claimed none key map = insert key in_flight map

unfoldable pub claim : IdempotencyKey → IdempotencyMap → Option IdempotencyState × IdempotencyMap
claim key map = (lookup key map, claimed (lookup key map) key map)

unfoldable pub complete : IdempotencyKey → TransactionResult → IdempotencyMap → IdempotencyMap
complete key result map = insert key (completed result) map

abbrev pub is_in_flight : Option IdempotencyState → Bool
is_in_flight (some in_flight) = true
is_in_flight _ = false

unfoldable pub release : IdempotencyKey → IdempotencyMap → IdempotencyMap
release key map = if is_in_flight (lookup key map) then remove key map else map
