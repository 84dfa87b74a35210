-- ===== src/Runtime/Stores/Inventory/Lifecycle.antt =====
-- The life of a reservation under the operations of crates/orchestrator-runtime/src/inventory.rs.
use commerce_orchestrator_ap.Prelude.{
  ℕ, ◌+◌, ◌≤◌, ◌<◌, ◌≡◌, ◌≢◌, ◌⊎◌, refl, true, false, String, [], ◌∷◌, arith, Bool-cases, inl, inr,
}
use commerce_orchestrator_ap.Prelude.Eq.{nat_eq, string_eq, pair_eq}
use commerce_orchestrator_ap.Core.Contract.{CartId}
use commerce_orchestrator_ap.Runtime.Stores.Inventory.{
  ReservationState, ReservationRecord, reserved, expired, Reservations, is_reserved, is_due,
  mark_cart, sweep_expired,
}

-- A sweep at `now`, record by record: a reservation that is held and whose lease has ended by then
-- is expired and counted, and every other record stays as it is.
pub data Swept (now : ℕ) : Reservations → ℕ → Reservations → Type 0 where
  swept_all : Swept now [] 0 []
  lapsed :
      (k : CartId × String) (r : ReservationRecord) {rest after : Reservations} {count : ℕ}
      → r.state ≡ reserved
      → r.lease_until ≤ now
      → Swept now rest count after
      → Swept now ((k, r) ∷ rest) (count + 1) ((k, record r { state = expired }) ∷ after)
  stays :
      (k : CartId × String) (r : ReservationRecord) {rest after : Reservations} {count : ℕ}
      → (r.state ≢ reserved) ⊎ (now < r.lease_until)
      → Swept now rest count after
      → Swept now ((k, r) ∷ rest) count ((k, r) ∷ after)

is_due-parts :
    (now : ℕ) (r : ReservationRecord)
    → is_due now r ≡ true
    → (r.state ≡ reserved) × (r.lease_until ≤ now)
is_due-parts now r h = ground arith

not_due-parts :
    (now : ℕ) (r : ReservationRecord)
    → is_due now r ≡ false
    → (r.state ≢ reserved) ⊎ (now < r.lease_until)
not_due-parts now r h = ground arith

-- A sweep expires and counts exactly the reservations that are held and whose lease has ended by
-- then, the moment of its end included, and leaves every other record as it is.
pub sweep_expired-Swept :
    (now : ℕ) (held : Reservations)
    → Swept now held (sweep_expired now held).1 (sweep_expired now held).0
unfolding sweep_expired
sweep_expired-Swept now [] = swept_all
sweep_expired-Swept now ((k, r) ∷ rest) = elim (Bool-cases (is_due now r)) [
  | inl due ↦
      let (held, ended) = is_due-parts now r due in
      rw due (lapsed k r held ended (sweep_expired-Swept now rest))
  | inr not_due ↦
      rw not_due (stays k r (not_due-parts now r not_due) (sweep_expired-Swept now rest))
]

-- Marking a cart's reservations with a state that holds nothing, such as released or finalized,
-- leaves the same records whether a sweep comes before or after it.
pub sweep-mark_cart :
    (state : ReservationState) (now : ℕ) (cart_id : CartId) (held : Reservations)
    → is_reserved state ≡ false
    → mark_cart state cart_id (sweep_expired now held).0
      ≡ (sweep_expired now (mark_cart state cart_id held)).0
unfolding sweep_expired mark_cart
sweep-mark_cart state now cart_id [] settled = refl
sweep-mark_cart state now cart_id ((k, r) ∷ rest) settled =
    let ih = sweep-mark_cart state now cart_id rest settled in ground arith
