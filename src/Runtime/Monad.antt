-- ===== src/Runtime/Monad.antt =====
-- The state that a runner's methods work on, the errors that they return, and the monad of a
-- method: what was written before an early return stays written, so the state comes back beside the
-- error too.
pub mod Post
use commerce_orchestrator_ap.Prelude.{
  ℕ, ◌+◌, ◌%◌, String, Bool, true, false, Option, none, some, List, [], ◌∷◌, ◌++◌,
}
use commerce_orchestrator_ap.Prelude.Int.{ℤ, u64_mod}
use commerce_orchestrator_ap.Prelude.Dict.{Dict}
use commerce_orchestrator_ap.Core.StateMachine.Cart.{CartState}
use commerce_orchestrator_ap.Core.Policy.{PolicyEngine}
use commerce_orchestrator_ap.Core.Contract.{
  CartId, CartProjection, CheckoutRequest, PaymentLifecycleRequest,
}
use commerce_orchestrator_ap.Runtime.Result.{Result, ok, err, map_err}
use commerce_orchestrator_ap.Runtime.Providers.{
  ProviderSet, World, CatalogError, PricingError, TaxError, GeoError, PaymentError, ReceiptError,
}
use commerce_orchestrator_ap.Runtime.Stores.Events.{CartStreamEvent}
use commerce_orchestrator_ap.Runtime.Stores.Idempotency.{IdempotencyMap}
use commerce_orchestrator_ap.Runtime.Stores.Inventory.{Reservations}
use commerce_orchestrator_ap.Runtime.Stores.Effects.{OutboxMessage, Outbox, DeadLetter, Mandates}
use commerce_orchestrator_ap.Runtime.Stores.Orders.{Orders, Commits, PaymentStates}

-- `RunnerError`; its `Store` variant is left out, since an in-memory store never fails.
pub data RunnerError : Type 0 where
  missing_cart_id cart_not_found line_not_found fulfillment_option_not_found : RunnerError
  fulfillment_quote : String → RunnerError
  validation : List String → RunnerError
  already_in_flight invalid_state_transition : RunnerError
  -- expected, current
  cart_version_conflict : ℕ → ℕ → RunnerError
  cart_tenant_mismatch geo_blocked : RunnerError
  -- expected_minor, provided_minor
  amount_mismatch : ℤ → ℤ → RunnerError
  unsupported_command : RunnerError
  catalog : CatalogError → RunnerError
  pricing : PricingError → RunnerError
  tax : TaxError → RunnerError
  geo : GeoError → RunnerError
  payment : PaymentError → RunnerError
  receipt : ReceiptError → RunnerError

-- A call of the payment provider. The runner keeps no record of these; the model does, so that
-- theorems can speak of the money that moves.
pub data PaymentCall : Type 0 where
  authorize : CheckoutRequest → PaymentCall
  capture void refund : PaymentLifecycleRequest → PaymentCall

-- The in-memory stores of a runner, the number of outside calls made so far, and the calls of the
-- payment provider in order.
pub record Stores : Type 0 where
  pub cart_events : Dict CartId (List CartStreamEvent)
  pub cart_snapshots : Dict CartId CartProjection
  pub cart_states : Dict CartId CartState
  pub idempotency : IdempotencyMap
  pub commits : Commits
  pub reservations : Reservations
  pub outbox : Outbox
  pub inbox : List String
  pub dead_letter : DeadLetter
  pub orders : Orders
  pub payment_states : PaymentStates
  pub mandates : Mandates
  pub moment : ℕ
  pub payments : List PaymentCall

-- The configuration of a `Runner`. A deliverer answers whether a delivery went through.
pub record Runner : Type 0 where
  pub providers : ProviderSet
  pub policy : PolicyEngine
  pub outbox_deliverer : Option (ℕ → OutboxMessage → Bool)
  pub world : World

abbrev pub M : Type 0 → Type 0
M A = Stores → Result RunnerError A × Stores

module _ {A : Type 0} where
  unfoldable pub pure : A → M A
  pure a s = (ok a, s)

  unfoldable pub raise : RunnerError → M A
  raise e s = (err e, s)

  unfoldable pub gets : (Stores → A) → M A
  gets f s = (ok (f s), s)

  -- `ok_or(e)?`
  unfoldable pub or_raise : Option A → RunnerError → M A
  or_raise none e s = (err e, s)
  or_raise (some a) e s = (ok a, s)

  -- A call to the outside that cannot fail.
  unfoldable pub ask : (ℕ → A) → M A
  ask f s = (ok (f s.moment), record s { moment = s.moment + 1 })

unfoldable pub modify : (Stores → Stores) → M (Unit {0})
modify f s = (ok tt, f s)

-- A call of a provider, `?` on its error.
unfoldable pub call : {E A : Type 0} → (E → RunnerError) → (ℕ → Result E A) → M A
call wrap f s = (map_err wrap (f s.moment), record s { moment = s.moment + 1 })

-- A call of the payment provider.
unfoldable pub pay : {A : Type 0} → PaymentCall → (ℕ → Result PaymentError A) → M A
pay c f s = (
  map_err payment (f s.moment),
  record s { moment = s.moment + 1; payments = s.payments ++ c ∷ [] },
)

module _ {A B : Type 0} where
  abbrev pub continue : Result RunnerError A → (A → M B) → M B
  continue (ok a) f s = f a s
  continue (err e) f s = (err e, s)

  infixl 5 ◌>>=◌ ◌>>◌
  unfoldable pub ◌>>=◌ : M A → (A → M B) → M B
  ◌>>=◌ m f s = let (r, s') = m s in continue r f s'

  abbrev pub ◌>>◌ : M A → M B → M B
  m >> k = m >>= λ _. k

-- `if test { return Err(e) }`
unfoldable pub raise_if : Bool → RunnerError → M (Unit {0})
raise_if true e s = (err e, s)
raise_if false e s = (ok tt, s)

abbrev pub otherwise : {A : Type 0} → Result RunnerError A → M (Unit {0}) → M A
otherwise (ok a) cleanup s = (ok a, s)
otherwise (err e) cleanup s = (err e, (cleanup s).1)

-- `match m { Ok(a) => a, Err(e) => { cleanup; return Err(e) } }`, for a cleanup that cannot fail
unfoldable pub on_error : {A : Type 0} → M A → M (Unit {0}) → M A
on_error m cleanup s = let (r, s') = m s in otherwise r cleanup s'

-- `for x in xs { body(x)? }`
unfoldable pub for_each : {A : Type 0} → List A → (A → M (Unit {0})) → M (Unit {0})
for_each [] body = pure tt
for_each (x ∷ xs) body = body x >> for_each xs body
