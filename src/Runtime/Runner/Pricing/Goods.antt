-- ===== src/Runtime/Runner/Pricing/Goods.antt =====
-- What a new price leaves of a cart (reprice_for_checkout of
-- crates/orchestrator-runtime/src/runner.rs), and whom the destination is asked of.
use commerce_orchestrator_ap.Prelude.{
  ℕ, ◌+◌, ◌≡◌, refl, ◌∙◌, ap, String, Bool, true, List, [], ◌∷◌, foldl, map, Bool-cases, inl, inr,
}
use commerce_orchestrator_ap.Prelude.Int.{ℤ}
use commerce_orchestrator_ap.Core.Discount.{AppliedDiscount}
use commerce_orchestrator_ap.Prelude.Texts.{str_eq}
use commerce_orchestrator_ap.Core.Contract.{CartLineProjection, CartProjection}
use commerce_orchestrator_ap.Runtime.Result.{Result, ok, err, map_err}
use commerce_orchestrator_ap.Runtime.Providers.{LinePrice, GeoCheckResult, GeoError}
use commerce_orchestrator_ap.Runtime.Monad.{Stores, Runner, ◌>>=◌, pure, call, continue, geo}
use commerce_orchestrator_ap.Runtime.Monad.Post.{Post, Yields, Yields-bind, Yields-pure, Yields-if}
use commerce_orchestrator_ap.Runtime.Runner.Pricing.{
  apply_price, with_prices, apply_discounts, reprice_for_checkout, check_geo, geo_check_request,
}

-- What is bought in a line.
abbrev pub goods_of : CartLineProjection → String × String × String × ℕ
goods_of l = (l.line_id, l.item_id, l.title, l.quantity)

-- The same cart, but for its amounts.
pub record SameGoods (before after : CartProjection) : Type 0 where
  pub cart_id : after.cart_id ≡ before.cart_id
  pub version : after.version ≡ before.version
  pub tenant_id : after.tenant_id ≡ before.tenant_id
  pub merchant_id : after.merchant_id ≡ before.merchant_id
  pub currency : after.currency ≡ before.currency
  pub goods : map goods_of after.lines ≡ map goods_of before.lines
  pub fulfillment : after.fulfillment ≡ before.fulfillment
  pub adjustment_codes : after.adjustment_codes ≡ before.adjustment_codes

apply_price-goods :
    (lines : List CartLineProjection) (p : LinePrice)
    → map goods_of (apply_price lines p) ≡ map goods_of lines
apply_price-goods [] p = refl
apply_price-goods (l ∷ lines) p = elim (Bool-cases (str_eq l.line_id p.line_id)) [
  | inl e ↦ rw e refl
  | inr e ↦ rw e (ap (λ gs. goods_of l ∷ gs) (apply_price-goods lines p))
]

prices-goods :
    (priced : List LinePrice) (lines : List CartLineProjection)
    → map goods_of (foldl apply_price lines priced) ≡ map goods_of lines
prices-goods [] lines = refl
prices-goods (p ∷ priced) lines =
    prices-goods priced (apply_price lines p) ∙ apply_price-goods lines p

-- A cart with new prices, and whatever tax, discount and total go with them.
priced-SameGoods :
    (c : CartProjection) (priced : List LinePrice) (tax discount total : ℤ)
    (discounts : List AppliedDiscount)
    → SameGoods c (record (with_prices c priced) {
      tax_minor = tax;
      discounts = discounts;
      discount_minor = discount;
      total_minor = total;
    })
unfolding with_prices
priced-SameGoods c priced tax discount total discounts = record {
  cart_id = refl;
  version = refl;
  tenant_id = refl;
  merchant_id = refl;
  currency = refl;
  goods = prices-goods priced c.lines;
  fulfillment = refl;
  adjustment_codes = refl;
}

-- The verdict on the destination is no part of the goods.
pub SameGoods-geo_ok :
    (before after : CartProjection) (geo_ok : Bool)
    → SameGoods before after
    → SameGoods before (record after { geo_ok = geo_ok })
SameGoods-geo_ok before after geo_ok h = record {
  cart_id = h.cart_id;
  version = h.version;
  tenant_id = h.tenant_id;
  merchant_id = h.merchant_id;
  currency = h.currency;
  goods = h.goods;
  fulfillment = h.fulfillment;
  adjustment_codes = h.adjustment_codes;
}

module _ (runner : Runner) where
  pub reprice-SameGoods :
      (c : CartProjection) → Yields (SameGoods c) (reprice_for_checkout runner c)
  unfolding reprice_for_checkout apply_discounts
  reprice-SameGoods c = Yields-bind _ _ λ priced. Yields-bind _ _ λ taxed.
      Yields-if _ _ _ (Yields-pure _ (priced-SameGoods c priced _ _ _ _))
        (Yields-bind _ _ λ ds. Yields-pure _ (priced-SameGoods c priced _ _ _ _))

  -- The provider allowed the destination of this cart, at some moment.
  pub record Allowed (cart : CartProjection) : Type 0 where
    pub asked_at : ℕ
    pub answer : GeoCheckResult
    pub answered : runner.providers.geo_check asked_at cart (geo_check_request cart) ≡ ok answer
    pub allows : answer.allowed ≡ true

  pub check_geo-Allowed :
      (cart : CartProjection) (s : Stores)
      → Post (λ allowed _. allowed ≡ true → Allowed cart) (λ _ _. Unit) (check_geo runner cart s)
  unfolding check_geo call ◌>>=◌ pure
  check_geo-Allowed cart s =
      go (runner.providers.geo_check s.moment cart (geo_check_request cart)) refl
    where
      go :
          (r : Result GeoError GeoCheckResult)
          → runner.providers.geo_check s.moment cart (geo_check_request cart) ≡ r
          → Post
              (λ allowed _. allowed ≡ true → Allowed cart)
              (λ _ _. Unit)
              (continue
                (map_err geo r)
                (λ answer t. (ok answer.allowed, t))
                (record s { moment = s.moment + 1 }))
      go (err e) asked = record { holds = tt }
      go (ok answer) asked = record {
        holds =
            λ yes. record { asked_at = s.moment; answer = answer; answered = asked; allows = yes };
      }
