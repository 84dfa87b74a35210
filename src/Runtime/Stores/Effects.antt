-- ===== src/Runtime/Stores/Effects.antt =====
-- crates/orchestrator-runtime/src/effects.rs
use commerce_orchestrator_ap.Prelude.{
  ℕ, String, Bool, true, false, Option, none, some, List, [], ◌∷◌, ◌++◌, if◌then◌else◌, any,
}
use commerce_orchestrator_ap.Prelude.Int.{ℤ, ltb_ℤ}
use commerce_orchestrator_ap.Prelude.Texts.{str_eq}
use commerce_orchestrator_ap.Prelude.Eq.{string_eq}
use commerce_orchestrator_ap.Prelude.Dict.{Dict, lookup, insert, remove}

pub record OutboxMessage : Type 0 where
  pub id : String
  pub topic : String
  pub payload : String
  pub correlation_id : String
  pub attempts : ℕ  -- u32
  pub tenant_id : Option String

abbrev pub Outbox : Type 0
Outbox = List OutboxMessage

-- `push_back`
unfoldable pub enqueue : OutboxMessage → Outbox → Outbox
enqueue message queue = queue ++ message ∷ []

-- `pop_front`
unfoldable pub dequeue : Outbox → Option OutboxMessage × Outbox
dequeue [] = (none, [])
dequeue (message ∷ queue) = (some message, queue)

-- `HashSet::insert` of the messages seen; `true` where the message is new.
unfoldable pub accept_once : String → List String → Bool × List String
accept_once message_id seen =
    if any (λ m. str_eq m message_id) seen then (false, seen) else (true, message_id ∷ seen)

abbrev pub DeadLetter : Type 0
DeadLetter = Dict String OutboxMessage

unfoldable pub put : OutboxMessage → DeadLetter → DeadLetter
put message = insert message.id message

unfoldable pub take : String → DeadLetter → Option OutboxMessage × DeadLetter
take message_id records = (lookup message_id records, remove message_id records)

-- mandate id to the second of its expiry
abbrev pub Mandates : Type 0
Mandates = Dict String ℤ

-- `guard.retain(|_, expiry| *expiry > now)`
unfoldable pub purge : ℤ → Mandates → Mandates
purge now [] = []
purge now ((k, expiry) ∷ seen) =
    let rest = purge now seen in if ltb_ℤ now expiry then (k, expiry) ∷ rest else rest

abbrev pub record_new : Option ℤ → String → ℤ → Mandates → Bool × Mandates
record_new (some _) mandate_id expires_at seen = (false, seen)
record_new none mandate_id expires_at seen = (true, insert mandate_id expires_at seen)

-- `record_mandate`, with the second that the clock shows
unfoldable pub record_mandate : ℤ → String → ℤ → Mandates → Bool × Mandates
record_mandate now mandate_id expires_at seen =
    let kept = purge now seen in record_new (lookup mandate_id kept) mandate_id expires_at kept
