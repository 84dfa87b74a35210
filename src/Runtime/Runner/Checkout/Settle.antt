-- ===== src/Runtime/Runner/Checkout/Settle.antt =====
-- What settle_cart_for_checkout of crates/orchestrator-runtime/src/runner.rs has made sure of when
-- it returns a cart.
use commerce_orchestrator_ap.Prelude.{
  ◌≡◌, refl, String, Bool, true, false, not, ==_sound, Option, none, some, arith, Option-cases, inl,
  inr,
}
use commerce_orchestrator_ap.Prelude.Int.{eqb_ℤ_sound}
use commerce_orchestrator_ap.Prelude.Texts.{eq_iff}
use commerce_orchestrator_ap.Prelude.Dict.{lookup, lookup-insert_self}
use commerce_orchestrator_ap.Prelude.Eq.{nat_eq}
use commerce_orchestrator_ap.Core.Contract.{CartProjection, CheckoutRequest}
use commerce_orchestrator_ap.Runtime.Monad.{Stores, Runner, RunnerError, pure, raise_if}
use commerce_orchestrator_ap.Runtime.Monad.Post.{
  Post, bind-Post, Yields, Yields-bind, Yields-and, Moves, Moves-bind, Moves-bind-Yields,
  Moves-raise_if, Moves-pure,
}
use commerce_orchestrator_ap.Runtime.Runner.Events.{
  put_cart_snapshot, require_cart-found, require_cart-missing,
}
use commerce_orchestrator_ap.Runtime.Runner.Pricing.{reprice_for_checkout}
use commerce_orchestrator_ap.Runtime.Runner.Pricing.Goods.{
  SameGoods, SameGoods-geo_ok, reprice-SameGoods, Allowed, check_geo-Allowed,
}
use commerce_orchestrator_ap.Runtime.Runner.Pricing.Totals.{
  IsPriced, IsPriced-relabel, apply_discounts-IsPriced,
}
use commerce_orchestrator_ap.Runtime.Runner.Carts.Steps.{
  CartOrder, require_cart-Moves, reprice-Moves, check_geo-Moves,
}
use commerce_orchestrator_ap.Runtime.Runner.Checkout.{foreign, settle_cart_for_checkout}

-- The cart `stored`, found in the stores `s`, may be charged as `settled` for `request`, and is
-- stored so in `t`.
pub record IsSettled (runner : Runner) (request : CheckoutRequest) (s : Stores)
    (settled : CartProjection) (t : Stores) : Type 0 where
  pub stored : CartProjection
  pub found : lookup request.cart_id s.cart_snapshots ≡ some stored
  pub own : (owner : String) → stored.tenant_id ≡ some owner → owner ≡ request.tenant_id
  pub version_matches : stored.version ≡ request.cart_version
  pub same_goods : SameGoods stored settled
  pub sums : IsPriced settled
  pub geo_open : settled.geo_ok ≡ true
  pub geo_before : Bool
  pub destination : Allowed runner (record settled { geo_ok = geo_before })
  pub amount_matches : request.payment_intent.amount_minor ≡ settled.total_minor
  pub kept : lookup settled.cart_id t.cart_snapshots ≡ some settled

raise_if-passed :
    (P : Stores → Type 0) (b : Bool) (e : RunnerError) (s : Stores)
    → P s
    → Post (λ _ t. (b ≡ false) × P t) (λ _ _. Unit) (raise_if b e s)
unfolding raise_if
raise_if-passed P true e s h = record { holds = tt }
raise_if-passed P false e s h = record { holds = (refl, h) }

put-kept :
    (c : CartProjection) (s : Stores)
    → Post (λ _ t. lookup c.cart_id t.cart_snapshots ≡ some c) (λ _ _. Unit) (put_cart_snapshot c s)
unfolding put_cart_snapshot
put-kept c s = record { holds = lookup-insert_self c.cart_id c s.cart_snapshots }

foreign-false :
    (owner : Option String) (tenant : String)
    → foreign owner tenant ≡ false
    → (o : String) → owner ≡ some o
    → o ≡ tenant
foreign-false none tenant h o e = cc
foreign-false (some p) tenant h o e = ground (arith, eq_iff p tenant)

abbrev KeepsCart : CartProjection → Bool → Stores → Type 0
KeepsCart c geo_ok t = lookup c.cart_id t.cart_snapshots ≡ some (record c { geo_ok = geo_ok })

not-false : (b : Bool) → not b ≡ false → b ≡ true
not-false true h = refl
not-false false h = cc

pub reprice-IsPriced :
    (runner : Runner) (c : CartProjection) → Yields IsPriced (reprice_for_checkout runner c)
unfolding reprice_for_checkout
reprice-IsPriced runner c =
    Yields-bind _ _ λ priced. Yields-bind _ _ λ taxed. apply_discounts-IsPriced runner _

-- The settlement, judged like the cart commands.
pub settle-Moves :
    {R : Stores → Stores → Type 0} (o : CartOrder R) (runner : Runner) (request : CheckoutRequest)
    → Moves R (settle_cart_for_checkout runner request)
unfolding settle_cart_for_checkout
settle-Moves o runner request = Moves-bind o.order (require_cart-Moves o request.cart_id) λ cart.
    Moves-bind o.order (Moves-raise_if o.order _ _) λ _.
      Moves-bind o.order (Moves-raise_if o.order _ _) λ _.
        Moves-bind-Yields o.order (reprice-Moves o runner cart) (reprice-IsPriced runner cart)
          λ priced h. Moves-bind o.order (check_geo-Moves o runner priced) λ geo.
            Moves-bind o.order (o.stores _ (IsPriced-relabel priced h geo _ _)) λ _.
              Moves-bind o.order (Moves-raise_if o.order _ _)
                λ _. Moves-bind o.order (Moves-raise_if o.order _ _) λ _. Moves-pure o.order _

module _ (runner : Runner) where
  pub settle-IsSettled :
      (request : CheckoutRequest) (s : Stores)
      → Post (IsSettled runner request s) (λ _ _. Unit) (settle_cart_for_checkout runner request s)
  unfolding settle_cart_for_checkout pure
  settle-IsSettled request s = elim (Option-cases (lookup request.cart_id s.cart_snapshots)) [
    | inl missing ↦ rw (require_cart-missing request.cart_id _ s missing) (record { holds = tt })
    | inr (cart, found) ↦ rw (require_cart-found request.cart_id _ s cart found) (
        bind-Post _ _ _ (raise_if-passed (λ _. Unit) _ _ s tt)
          (λ _ t (own, _).
            bind-Post _ _ _ (raise_if-passed (λ _. Unit) _ _ t tt)
              (λ _ t (version, _).
                bind-Post _ _ _
                  (record {
                    holds =
                        (Yields-and (reprice-IsPriced runner cart)
                            (reprice-SameGoods runner cart)).at
                          t;
                  })
                  (λ priced t (sums, goods).
                    bind-Post _ _ _ (check_geo-Allowed runner priced t)
                      (λ geo t allowed.
                        bind-Post _ _ _ (put-kept _ t)
                          (λ _ t kept.
                            bind-Post _ _ _ (raise_if-passed (KeepsCart priced geo) _ _ t kept)
                              (λ _ t (geo_open, kept).
                                bind-Post _ _ _ (raise_if-passed (KeepsCart priced geo) _ _ t kept)
                                  (λ _ t (amount, kept). record {
                                    holds = record {
                                      stored = cart;
                                      found = found;
                                      own = foreign-false cart.tenant_id request.tenant_id own;
                                      version_matches = ==_sound _ _ (not-false _ version);
                                      sums = IsPriced-relabel priced sums geo _ _;
                                      same_goods = SameGoods-geo_ok cart priced geo goods;
                                      geo_before = priced.geo_ok;
                                      destination = allowed (not-false _ geo_open);
                                      geo_open = not-false _ geo_open;
                                      amount_matches = eqb_ℤ_sound _ _ (not-false _ amount);
                                      kept = kept;
                                    };
                                  })
                                  ignored)
                              ignored)
                          ignored)
                      ignored)
                  ignored)
              ignored)
          ignored)
  ]
    where
      ignored : (e : RunnerError) (t : Stores) → Unit {0} → Unit {0}
      ignored e t h = h
