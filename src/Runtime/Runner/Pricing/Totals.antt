-- ===== src/Runtime/Runner/Pricing/Totals.antt =====
-- The total of a priced cart (apply_discounts of crates/orchestrator-runtime/src/runner.rs).
use commerce_orchestrator_ap.Prelude.{ℕ, ◌≤◌, ◌≡◌, Bool, List, arith, is_empty, min}
use commerce_orchestrator_ap.Prelude.Int.{
  ℤ, pos, negsuc, pos_part, ◌≤ℤ◌, ◌-ℤ◌, int_laws, IsI64, add64, sub64, wrap64_exact, wrap64-IsI64,
  i64_max,
}
use commerce_orchestrator_ap.Core.Discount.{AppliedDiscount}
use commerce_orchestrator_ap.Core.Discount.Bounds.{sum_granted, total_discount_minor_exact}
use commerce_orchestrator_ap.Core.Contract.{CartProjection, CartStatus}
use commerce_orchestrator_ap.Runtime.Monad.{Runner}
use commerce_orchestrator_ap.Runtime.Monad.Post.{Yields, Yields-bind, Yields-pure, Yields-if}
use commerce_orchestrator_ap.Runtime.Runner.Pricing.{
  gross, undiscounted, discounted, apply_discounts,
}

-- What a cart costs before the discount: subtotal, tax and fulfillment, added as `i64`s.
abbrev pub owed : CartProjection → ℤ
owed c = add64 (add64 c.subtotal_minor c.tax_minor) c.fulfillment_minor

-- The total is exactly what is owed less the discount, with no wrap; the discount is not negative,
-- and at most what is owed where that is positive, and nothing otherwise.
pub record IsPriced (c : CartProjection) : Type 0 where
  pub exact : c.total_minor ≡ owed c -ℤ c.discount_minor
  pub not_negative : pos 0 ≤ℤ c.discount_minor
  pub bounded : pos_part c.discount_minor ≤ pos_part (owed c)

-- Taking off no more than there is cannot wrap.
sub64_exact : (g : ℤ) (d : ℕ) → IsI64 g → d ≤ pos_part g → sub64 g (pos d) ≡ g -ℤ pos d
unfolding sub64 ◌-ℤ◌
sub64_exact (pos n) d h k = wrap64_exact _ (ground arith)
sub64_exact (negsuc n) d h k = wrap64_exact _ (ground arith)

gross-IsI64 : (c : CartProjection) → IsI64 (gross c)
unfolding add64
gross-IsI64 c = wrap64-IsI64 _

sub_zero : (g : ℤ) → g ≡ g -ℤ pos 0
sub_zero g = omega int_laws

min-le_right : (a b : ℕ) → min a b ≤ b
min-le_right a b = ground arith

undiscounted-IsPriced : (c : CartProjection) → IsPriced (undiscounted c)
undiscounted-IsPriced c = record {
  exact = sub_zero (gross c);
  not_negative = omega arith;
  bounded = omega arith;
}

discounted-IsPriced : (c : CartProjection) (ds : List AppliedDiscount) → IsPriced (discounted c ds)
discounted-IsPriced c ds =
    let e = total_discount_minor_exact ds (gross c) in
    let d : ℕ = min (min (sum_granted ds) i64_max) (pos_part (gross c)) in
    let fits : d ≤ pos_part (gross c) =
      min-le_right (min (sum_granted ds) i64_max) (pos_part (gross c)) in
    record {
      exact = rw e (sub64_exact (gross c) d (gross-IsI64 c) fits);
      not_negative = rw e (omega arith);
      bounded = rw e fits;
    }

module _ (runner : Runner) where
  -- Whatever the provider grants, the cart comes back priced.
  pub apply_discounts-IsPriced : (c : CartProjection) → Yields IsPriced (apply_discounts runner c)
  unfolding apply_discounts
  apply_discounts-IsPriced c =
      Yields-if (is_empty c.adjustment_codes) _ _ (Yields-pure _ (undiscounted-IsPriced c))
        (Yields-bind _ _ (λ ds. Yields-pure _ (discounted-IsPriced c ds)))

sub_not_negative : (g d : ℤ) → pos 0 ≤ℤ g → pos 0 ≤ℤ d → pos_part d ≤ pos_part g → pos 0 ≤ℤ g -ℤ d
unfolding ◌-ℤ◌
sub_not_negative (pos n) (pos m) h k l = ground arith
sub_not_negative (pos n) (negsuc m) h k l = absurd (omega arith)
sub_not_negative (negsuc n) d h k l = absurd (omega arith)

-- Where what is owed for a priced cart is not negative, its total is not negative either.
pub IsPriced-not_negative :
    (c : CartProjection) → IsPriced c → pos 0 ≤ℤ owed c → pos 0 ≤ℤ c.total_minor
IsPriced-not_negative c p h =
    rw p.exact (sub_not_negative (owed c) c.discount_minor h p.not_negative p.bounded)

-- The geo verdict, the version and the status of a cart have no part in its amounts.
pub IsPriced-relabel :
    (c : CartProjection)
    → IsPriced c
    → (geo_ok : Bool) (version : ℕ) (status : CartStatus)
    → IsPriced (record c { geo_ok = geo_ok; version = version; status = status })
IsPriced-relabel c p geo_ok version status = record {
  exact = p.exact;
  not_negative = p.not_negative;
  bounded = p.bounded;
}
