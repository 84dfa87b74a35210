-- ===== src/Runtime/Persistence/FileBacked.antt =====
-- The stores of crates/orchestrator-runtime/src/persistence/file_backed.rs: each keeps its value in
-- memory and writes all of it to its file after a change.
pub mod Reservations
use commerce_orchestrator_ap.Prelude.{
  ℕ, String, Bool, true, false, not, Option, none, some, List, [], ◌∷◌, ◌++◌, any, if◌then◌else◌,
}
use commerce_orchestrator_ap.Prelude.Int.{ℤ, pos}
use commerce_orchestrator_ap.Prelude.Texts.{str_eq}
use commerce_orchestrator_ap.Prelude.Eq.{string_eq}
use commerce_orchestrator_ap.Prelude.Dict.{Dict, lookup, insert, remove}
use commerce_orchestrator_ap.Core.Contract.{
  CartId, CartProjection, TransactionResult, PaymentState, OrderRecord, OrderEvent, OrderAdjustment,
  OrderStatus, Uuid,
}
use commerce_orchestrator_ap.Core.StateMachine.Cart.{CartState}
use commerce_orchestrator_ap.Runtime.Result
use commerce_orchestrator_ap.Runtime.Result.{Result}
use commerce_orchestrator_ap.Runtime.Stores.Events.{CartStreamEvent}
use commerce_orchestrator_ap.Runtime.Stores.Idempotency.{
  IdempotencyKey, IdempotencyState, in_flight, completed, is_in_flight,
}
use commerce_orchestrator_ap.Runtime.Stores.Effects
use commerce_orchestrator_ap.Runtime.Stores.Effects.{OutboxMessage, Outbox, DeadLetter, Mandates}
use commerce_orchestrator_ap.Runtime.Stores.Orders
use commerce_orchestrator_ap.Runtime.Stores.Orders.{Orders, CommitRecord}
use commerce_orchestrator_ap.Runtime.Webhooks
use commerce_orchestrator_ap.Runtime.Webhooks.{WebhookRegistration}
use commerce_orchestrator_ap.Runtime.Persistence.Disk.{
  Disk, Backed, B, save, write_through, write_if,
}
use commerce_orchestrator_ap.Runtime.Persistence.Keys.{idempotency_key_str}

-- The idempotency keys, as texts.
abbrev pub States : Type 0
States = Dict String IdempotencyState

abbrev pub claim_key : Disk → Option IdempotencyState → String → B States (Option IdempotencyState)
claim_key disk (some state) k b = (Result.ok (some state), b)
claim_key disk none k b = write_through disk (insert k in_flight) none b

module _ (disk : Disk) where
  unfoldable pub claim : IdempotencyKey → B States (Option IdempotencyState)
  claim key b = let k = idempotency_key_str key in claim_key disk (lookup k b.memory) k b

  unfoldable pub complete : IdempotencyKey → TransactionResult → B States (Unit {0})
  complete key result = write_through disk (insert (idempotency_key_str key) (completed result)) tt

  unfoldable pub release : IdempotencyKey → B States (Unit {0})
  release key b =
      let k = idempotency_key_str key in
      if is_in_flight (lookup k b.memory)
      then write_through disk (remove k) tt b
      else (Result.ok tt, b)

  -- The event store, a file for each of its maps, under the text of a cart's id.
  module _ (uuid_text : Uuid → String) where
    abbrev or_default : Option (List CartStreamEvent) → List CartStreamEvent
    or_default none = []
    or_default (some events) = events

    unfoldable pub append_cart_event :
        CartId → CartStreamEvent → B (Dict String (List CartStreamEvent)) (Unit {0})
    append_cart_event cart_id event =
        let key = uuid_text cart_id in
        write_through disk (λ m. insert key (or_default (lookup key m) ++ event ∷ []) m) tt

    unfoldable pub put_cart_snapshot : CartProjection → B (Dict String CartProjection) (Unit {0})
    put_cart_snapshot snapshot =
        write_through disk (insert (uuid_text snapshot.cart_id) snapshot) tt

    unfoldable pub set_cart_state : CartId → CartState → B (Dict String CartState) (Unit {0})
    set_cart_state cart_id state = write_through disk (insert (uuid_text cart_id) state) tt

    -- `commit`, with the identifier that the transaction gets
    unfoldable pub commit :
        Uuid → CartId → Option String → B (Dict String CommitRecord) CommitRecord
    commit fresh cart_id payment_reference =
        let made : CommitRecord = record {
          transaction_id = Prim.Native.String.◌++◌ "txn_" (uuid_text fresh);
          cart_id = cart_id;
          payment_reference = payment_reference;
        } in
        write_through disk (insert (uuid_text cart_id) made) made

  unfoldable pub enqueue : OutboxMessage → B Outbox (Unit {0})
  enqueue message = write_through disk (Effects.enqueue message) tt

  abbrev is_some : {A : Type 0} → Option A → Bool
  is_some none = false
  is_some (some _) = true

  unfoldable pub dequeue : B Outbox (Option OutboxMessage)
  dequeue b =
      let (message, rest) = Effects.dequeue b.memory in
      write_if disk (is_some message) rest message b

  unfoldable pub accept_once : String → B (List String) Bool
  accept_once message_id b =
      let (inserted, seen) = Effects.accept_once message_id b.memory in
      write_if disk inserted seen inserted b

  unfoldable pub put_dead_letter : OutboxMessage → B DeadLetter (Unit {0})
  put_dead_letter message = write_through disk (Effects.put message) tt

  unfoldable pub take : String → B DeadLetter (Option OutboxMessage)
  take message_id b =
      let (message, rest) = Effects.take message_id b.memory in
      write_if disk (is_some message) rest message b

  unfoldable pub put_order : OrderRecord → B Orders (Unit {0})
  put_order order = write_through disk (Orders.put order) tt

  -- A change of an order that is there.
  unfoldable pub change_order :
      (Orders → Option OrderRecord × Orders) → B Orders (Option OrderRecord)
  change_order f b = let (out, records) = f b.memory in write_if disk (is_some out) records out b

  unfoldable pub append_event : String → OrderEvent → B Orders (Option OrderRecord)
  append_event order_id event = change_order (Orders.append_event order_id event)

  unfoldable pub add_adjustment : String → OrderAdjustment → B Orders (Option OrderRecord)
  add_adjustment order_id adjustment = change_order (Orders.add_adjustment order_id adjustment)

  unfoldable pub update_status : String → OrderStatus → B Orders (Option OrderRecord)
  update_status order_id status = change_order (Orders.update_status order_id status)

  -- The error of the write is printed, and nothing else comes of it.
  unfoldable pub put_payment_state :
      String → PaymentState → Backed (Dict String PaymentState) → Backed (Dict String PaymentState)
  put_payment_state transaction_id state b =
      (write_through disk (insert transaction_id state) tt b).1

  abbrev record_kept : Bool → Mandates → B Mandates Bool
  record_kept true seen b = write_through disk (λ _. seen) true b
  record_kept false seen b = (Result.ok false, record b { memory = seen })

  -- `record_mandate`, with the second that the clock shows; a purge alone is not written.
  unfoldable pub record_mandate : ℤ → String → ℤ → B Mandates Bool
  record_mandate now mandate_id expires_at b =
      let (new, seen) = Effects.record_mandate now mandate_id expires_at b.memory in
      record_kept new seen b

  unfoldable pub register : WebhookRegistration → B Webhooks.Webhooks (Unit {0})
  register registration = write_through disk (Webhooks.register registration) tt

  unfoldable pub unregister : String → B Webhooks.Webhooks Bool
  unregister id b =
      let (removed, rest) = Webhooks.unregister id b.memory in write_if disk removed rest removed b
