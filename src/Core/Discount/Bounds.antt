-- ===== src/Core/Discount/Bounds.antt =====
-- What total_discount_minor of crates/orchestrator-core/src/discount.rs returns.
use commerce_orchestrator_ap.Prelude.{
  ℕ, ◌+◌, ◌≤◌, ◌≡◌, ap, ◌∙◌, List, [], ◌∷◌, map, foldl, arith, min,
}
use commerce_orchestrator_ap.Prelude.Int.{
  ℤ, pos, negsuc, pos_part, max_ℤ, min_ℤ, saturating_add64, i64_max,
}
use commerce_orchestrator_ap.Core.Discount.{AppliedDiscount, granted, total_discount_minor}

-- What the discounts come to without any cap, as a number: a negative amount counts for nothing.
abbrev pub sum_granted : List AppliedDiscount → ℕ
sum_granted [] = 0
sum_granted (d ∷ ds) = pos_part d.amount_minor + sum_granted ds

granted_pos : (d : AppliedDiscount) → granted d ≡ pos (pos_part d.amount_minor)
granted_pos d = elim d.amount_minor as (λ z. max_ℤ z (pos 0) ≡ pos (pos_part z)) [
  | pos n ↦ ground arith
  | negsuc n ↦ ground arith
]

saturating_add64_pos : (a b : ℕ) → saturating_add64 (pos a) (pos b) ≡ pos (min (a + b) i64_max)
unfolding saturating_add64
saturating_add64_pos a b = ground arith

-- A cap taken early changes nothing under the same cap taken late.
min_absorb : (a b c m : ℕ) → min (min (a + b) m + c) m ≡ min (a + (b + c)) m
min_absorb a b c m = ground arith

clamp_owed : (n : ℕ) (owed : ℤ) → min_ℤ (pos n) (max_ℤ owed (pos 0)) ≡ pos (min n (pos_part owed))
clamp_owed n (pos o) = ground arith
clamp_owed n (negsuc o) = ground arith

-- The saturating fold is the sum, capped once.
foldl-granted :
    (ds : List AppliedDiscount) (acc : ℕ)
    → acc ≤ i64_max
    → foldl saturating_add64 (pos acc) (map granted ds) ≡ pos (min (acc + sum_granted ds) i64_max)
foldl-granted [] acc h = ground arith
foldl-granted (d ∷ ds) acc h = rw (granted_pos d) (
    rw (saturating_add64_pos acc (pos_part d.amount_minor)) (
      foldl-granted ds (min (acc + pos_part d.amount_minor) i64_max) (ground arith)
      ∙ ap pos (min_absorb acc (pos_part d.amount_minor) (sum_granted ds) i64_max)))

-- The total discount is the sum of the positive amounts, capped at `i64::MAX` and at what is owed;
-- if nothing or less is owed it is 0.
pub total_discount_minor_exact :
    (ds : List AppliedDiscount) (owed : ℤ)
    → total_discount_minor ds owed ≡ pos (min (min (sum_granted ds) i64_max) (pos_part owed))
unfolding total_discount_minor
total_discount_minor_exact ds owed =
    rw (foldl-granted ds 0 (omega arith))
      (clamp_owed (min (0 + sum_granted ds) i64_max) owed ∙ ground arith)
