-- ===== src/Core/StateMachine/Cart.antt =====
-- The cart machine of crates/orchestrator-core/src/state_machine.rs.
pub mod Traces
use commerce_orchestrator_ap.Prelude.{Option, none, some, List, [], ◌∷◌}

pub data CartState : Type 0 where
  cart_created items_mutated repriced retaxed geo_checked checkout_ready cancelled : CartState

pub data CartEvent : Type 0 where
  item_changed pricing_resolved tax_resolved geo_validated mark_checkout_ready cancel : CartEvent

unfoldable pub next_cart_state : CartState → CartEvent → Option CartState
next_cart_state cart_created item_changed = some items_mutated
next_cart_state items_mutated item_changed = some items_mutated
next_cart_state items_mutated pricing_resolved = some repriced
next_cart_state repriced tax_resolved = some retaxed
next_cart_state retaxed geo_validated = some geo_checked
next_cart_state cart_created mark_checkout_ready = some checkout_ready
next_cart_state items_mutated mark_checkout_ready = some checkout_ready
next_cart_state repriced mark_checkout_ready = some checkout_ready
next_cart_state retaxed mark_checkout_ready = some checkout_ready
next_cart_state geo_checked mark_checkout_ready = some checkout_ready
next_cart_state geo_checked item_changed = some items_mutated
next_cart_state checkout_ready item_changed = some items_mutated
next_cart_state cart_created cancel = some cancelled
next_cart_state items_mutated cancel = some cancelled
next_cart_state repriced cancel = some cancelled
next_cart_state retaxed cancel = some cancelled
next_cart_state geo_checked cancel = some cancelled
next_cart_state checkout_ready cancel = some cancelled
next_cart_state _ _ = none

-- A sequence of events, each taken in the state that the last one left; `none` at the first that
-- the machine refuses.
unfoldable pub run_cart : CartState → List CartEvent → Option CartState
run_cart s [] = some s
run_cart s (e ∷ es) = elim (next_cart_state s e) [ none ↦ none | some t ↦ run_cart t es ]
