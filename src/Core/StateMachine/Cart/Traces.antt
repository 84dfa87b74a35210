-- ===== src/Core/StateMachine/Cart/Traces.antt =====
-- What sequences of cart events can do (next_cart_state).
use commerce_orchestrator_ap.Prelude.{◌≡◌, refl, none, some, List, [], ◌∷◌, arith}
use commerce_orchestrator_ap.Core.StateMachine.Cart.{
  CartState, retaxed, geo_checked, cancelled, CartEvent, item_changed, geo_validated,
  next_cart_state, run_cart,
}

cancelled_refuses : (e : CartEvent) → next_cart_state cancelled e ≡ none
unfolding next_cart_state
cancelled_refuses item_changed = refl
cancelled_refuses _ = refl

-- The steps that can end in `geo_checked`.
geo_checked_from :
    (s : CartState) (e : CartEvent)
    → next_cart_state s e ≡ some geo_checked
    → (s ≡ retaxed) × (e ≡ geo_validated)
unfolding next_cart_state
geo_checked_from s e h = ground arith

-- From a cancelled cart no event goes anywhere: a run that does not fail took no event.
pub cancelled_final :
    (es : List CartEvent) (t : CartState)
    → run_cart cancelled es ≡ some t
    → (es ≡ []) × (t ≡ cancelled)
unfolding run_cart
cancelled_final [] t h = (refl, cc)
cancelled_final (e ∷ es) t h = cc (cancelled_refuses e)
