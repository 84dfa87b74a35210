-- ===== src/Runtime/Runner/Fulfillment/Destination.antt =====
-- By which destination a cart is judged after a SetFulfillmentSelection command: dispatch_cart_command
-- of crates/orchestrator-runtime/src/runner.rs and CartProjection::location_hint of
-- crates/orchestrator-core/src/contract.rs.
use commerce_orchestrator_ap.Prelude.{
  ◌≡◌, refl, ◌∙◌, ap, false, not, some, List, ◌∷◌, retain, is_empty,
}
use commerce_orchestrator_ap.Prelude.Lists
use commerce_orchestrator_ap.Prelude.Dict.{lookup}
use commerce_orchestrator_ap.Prelude.Eq.{nat_eq}
use commerce_orchestrator_ap.Core.Fulfillment.{
  FulfillmentMethodType, eq_method_type, FulfillmentMethod,
}
use commerce_orchestrator_ap.Core.Contract.{
  CartId, CartProjection, SetFulfillmentSelectionPayload, LocationHint,
}
use commerce_orchestrator_ap.Core.Contract.Location.{locate, location_hint, location_hint-first}
use commerce_orchestrator_ap.Runtime.Monad.{
  Stores, Runner, RunnerError, missing_cart_id, M, ◌>>=◌, or_raise,
}
use commerce_orchestrator_ap.Runtime.Monad.Post.{
  Post, Yields, Yields-bind, Yields-after, Yields-pure, Yields-if,
}
use commerce_orchestrator_ap.Runtime.Runner.Events.{require_cart-found}
use commerce_orchestrator_ap.Runtime.Runner.Pricing.{apply_discounts}
use commerce_orchestrator_ap.Runtime.Runner.Fulfillment.{
  with_method, selection, set_fulfillment_selection,
}

-- A selection of another type puts its method after the ones that are there.
with_method-first :
    (m new : FulfillmentMethod) (rest : List FulfillmentMethod) (kind : FulfillmentMethodType)
    → eq_method_type m.method_type kind ≡ false
    → with_method (some (record { methods = m ∷ rest })) kind new ≡ record {
      methods = m ∷ Lists.append (retain (λ x. not (eq_method_type x.method_type kind)) rest) new;
    }
with_method-first m new rest kind e = rw e refl

discounts-fulfillment :
    (runner : Runner) (c : CartProjection)
    → Yields (λ p. p.fulfillment ≡ c.fulfillment) (apply_discounts runner c)
unfolding apply_discounts
discounts-fulfillment runner c =
    Yields-if (is_empty c.adjustment_codes) _ _ (Yields-pure _ refl)
      (Yields-bind _ _ λ ds. Yields-pure _ refl)

module _ {A : Type 0} (f : CartId → M A) where
  or_raise-given :
      (id : CartId) (e : RunnerError) (s : Stores) → (or_raise (some id) e >>= f) s ≡ f id s
  unfolding ◌>>=◌ or_raise
  or_raise-given id e s = refl

-- Where the first fulfillment method of a stored cart gives a location, a SetFulfillmentSelection of
-- another type that succeeds returns a cart that is still judged by that location, whatever
-- destination the selection brings.
pub selection_keeps_location :
    (runner : Runner) (id : CartId) (payload : SetFulfillmentSelectionPayload) (s : Stores)
    (cart : CartProjection) (m : FulfillmentMethod) (rest : List FulfillmentMethod)
    (hint : LocationHint)
    → lookup id s.cart_snapshots ≡ some cart
    → cart.fulfillment ≡ some (record { methods = m ∷ rest })
    → eq_method_type m.method_type payload.method_type ≡ false
    → locate m ≡ some hint
    → Post
        (λ returned _. location_hint returned ≡ some hint)
        (λ _ _. Unit)
        (set_fulfillment_selection runner (some id) payload s)
unfolding set_fulfillment_selection
selection_keeps_location runner id payload s cart m rest hint found methods other located =
    rw (or_raise-given _ id missing_cart_id s) (
      rw (require_cart-found id _ s cart found) (record {
        holds =
            (Yields-bind _ _ λ ids. Yields-bind _ _ λ options. Yields-bind _ _ λ _.
                Yields-bind _ _ λ group_uuid. Yields-bind _ _ λ method_uuid.
                  Yields-after (discounts-fulfillment runner _) λ p same. Yields-bind _ _ λ allowed.
                    Yields-bind _ _ λ _. Yields-bind _ _ λ _. Yields-pure _ (
                      location_hint-first _ m _
                        (same
                          ∙ ap some (
                              ap
                                (λ f.
                                  with_method f payload.method_type
                                    (selection runner payload ids options group_uuid method_uuid))
                                methods
                              ∙ with_method-first m _ rest payload.method_type other))
                        located)).at
              s;
      }))
