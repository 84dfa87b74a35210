-- ===== src/Runtime/Persistence/FileBacked/Reservations.antt =====
-- FileBackedReservationStore of crates/orchestrator-runtime/src/persistence/file_backed.rs.
use Prim.Native.String.{◌++◌}
use text.Mathlib.Text.{starts_with}
use commerce_orchestrator_ap.Prelude.{
  ℕ, ◌+◌, ◌/◌, ◌*◌, ◌-◌, String, ◌&&◌, leb, List, [], ◌∷◌, if◌then◌else◌,
}
use commerce_orchestrator_ap.Prelude.Eq.{string_eq}
use commerce_orchestrator_ap.Prelude.Dict.{Dict, insert}
use commerce_orchestrator_ap.Core.Contract.{CartId, Uuid}
use commerce_orchestrator_ap.Runtime.Stores.Inventory.{
  ReservationState, reserved, expired, released, finalized, is_reserved, ReservationRecord,
}
use commerce_orchestrator_ap.Runtime.Persistence.Disk.{Disk, B, write_through}

-- A lease in seconds of the calendar clock, as it is kept in the file.
pub record ReservationDto : Type 0 where
  pub cart_id : CartId
  pub sku : String
  pub quantity : ℕ  -- u32
  pub state : ReservationState
  pub lease_until_secs : ℕ

abbrev nanos : ℕ
nanos = 1000000000

-- `to_record`, with the second of the calendar clock and the reading of the monotonic one; a
-- subtraction below 0 counts as 0.
unfoldable pub to_record : ℕ → ℕ → ReservationDto → ReservationRecord
to_record now_secs instant dto = record {
  cart_id = dto.cart_id;
  sku = dto.sku;
  quantity = dto.quantity;
  state = dto.state;
  lease_until = instant + (dto.lease_until_secs - now_secs) * nanos;
}

abbrev pub Dtos : Type 0
Dtos = Dict String ReservationDto

-- `for (k, v) in guard.iter_mut()`, a write where the key starts with the cart's id and a bar
unfoldable pub mark_prefix : ReservationState → String → Dtos → Dtos
mark_prefix state prefix [] = []
mark_prefix state prefix ((k, v) ∷ rest) =
    (k, if starts_with k prefix then record v { state = state } else v)
    ∷ mark_prefix state prefix rest

unfoldable pub sweep_dtos : ℕ → Dtos → Dtos × ℕ
sweep_dtos now [] = ([], 0)
sweep_dtos now ((k, v) ∷ rest) =
    let (swept, count) = sweep_dtos now rest in
    if is_reserved v.state && leb v.lease_until_secs now
    then ((k, record v { state = expired }) ∷ swept, count + 1)
    else ((k, v) ∷ swept, count)

module _ (disk : Disk) (uuid_text : Uuid → String) where
  abbrev key : CartId → String → String
  key cart_id sku = uuid_text cart_id ++ ("|" ++ sku)

  -- `reserve`, with the second of the calendar clock and a time to live in nanoseconds
  unfoldable pub reserve : ℕ → CartId → String → ℕ → ℕ → B Dtos (Unit {0})
  reserve now cart_id sku quantity ttl =
      let dto : ReservationDto = record {
        cart_id = cart_id;
        sku = sku;
        quantity = quantity;
        state = reserved;
        lease_until_secs = now + ttl / nanos;
      } in
      write_through disk (insert (key cart_id sku) dto) tt

  unfoldable pub finalize_cart : CartId → B Dtos (Unit {0})
  finalize_cart cart_id = write_through disk (mark_prefix finalized (uuid_text cart_id ++ "|")) tt

  unfoldable pub release_cart : CartId → B Dtos (Unit {0})
  release_cart cart_id = write_through disk (mark_prefix released (uuid_text cart_id ++ "|")) tt

  unfoldable pub sweep_expired : ℕ → B Dtos ℕ
  sweep_expired now b =
      let (swept, count) = sweep_dtos now b.memory in write_through disk (λ _. swept) count b

  unfoldable pub by_cart : ℕ → ℕ → CartId → Dtos → List ReservationRecord
  by_cart now_secs instant cart_id [] = []
  by_cart now_secs instant cart_id ((k, v) ∷ rest) =
      let found = by_cart now_secs instant cart_id rest in
      if starts_with k (uuid_text cart_id ++ "|")
      then to_record now_secs instant v ∷ found
      else found
