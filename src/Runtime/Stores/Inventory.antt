-- ===== src/Runtime/Stores/Inventory.antt =====
-- crates/orchestrator-runtime/src/inventory.rs
pub mod Lifecycle
use commerce_orchestrator_ap.Prelude.{
  ℕ, String, ◌+◌, ◌*◌, ◌/◌, Bool, true, false, ◌&&◌, ◌==◌, leb, List, [], ◌∷◌, if◌then◌else◌,
  retain, map,
}
use commerce_orchestrator_ap.Prelude.Eq.{nat_eq, string_eq, pair_eq}
use commerce_orchestrator_ap.Prelude.Dict.{Dict, insert}
use commerce_orchestrator_ap.Core.Contract.{CartId}

pub data ReservationState : Type 0 where
  reserved expired released finalized : ReservationState

pub record ReservationRecord : Type 0 where
  pub cart_id : CartId
  pub sku : String
  pub quantity : ℕ  -- u32
  pub state : ReservationState
  pub lease_until : ℕ  -- Instant, in nanoseconds

abbrev pub Reservations : Type 0
Reservations = Dict (CartId × String) ReservationRecord

abbrev pub is_reserved : ReservationState → Bool
is_reserved reserved = true
is_reserved _ = false

abbrev nanos : ℕ
nanos = 1000000000

-- `Duration::from_secs(ttl.as_secs())`: whole seconds only
abbrev pub whole_seconds : ℕ → ℕ
whole_seconds ttl = ttl / nanos * nanos

-- The trait's `reserve`, with the time that the clock shows.
unfoldable pub reserve : ℕ → CartId → String → ℕ → ℕ → Reservations → Reservations
reserve now cart_id sku quantity ttl =
    insert (cart_id, sku)
      (record {
        cart_id = cart_id;
        sku = sku;
        quantity = quantity;
        state = reserved;
        lease_until = now + whole_seconds ttl;
      })

-- `for record in guard.values_mut().filter(|r| r.cart_id == cart_id) { record.state = state }`
unfoldable pub mark_cart : ReservationState → CartId → Reservations → Reservations
mark_cart state cart_id [] = []
mark_cart state cart_id ((k, r) ∷ rest) =
    (k, if r.cart_id == cart_id then record r { state = state } else r)
    ∷ mark_cart state cart_id rest

unfoldable pub finalize_cart : CartId → Reservations → Reservations
unfolding mark_cart
finalize_cart = mark_cart finalized

unfoldable pub release_cart : CartId → Reservations → Reservations
unfolding mark_cart
release_cart = mark_cart released

-- The test of the sweep.
abbrev pub is_due : ℕ → ReservationRecord → Bool
is_due now r = is_reserved r.state && leb r.lease_until now

unfoldable pub sweep_expired : ℕ → Reservations → Reservations × ℕ
sweep_expired now [] = ([], 0)
sweep_expired now ((k, r) ∷ rest) =
    let (swept, count) = sweep_expired now rest in
    if is_due now r
    then ((k, record r { state = expired }) ∷ swept, count + 1)
    else ((k, r) ∷ swept, count)

unfoldable pub by_cart : CartId → Reservations → List ReservationRecord
by_cart cart_id [] = []
by_cart cart_id ((k, r) ∷ rest) =
    let found = by_cart cart_id rest in if r.cart_id == cart_id then r ∷ found else found
