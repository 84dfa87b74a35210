-- ===== src/Core/Discount.antt =====
-- crates/orchestrator-core/src/discount.rs
pub mod Bounds
use commerce_orchestrator_ap.Prelude.{String, Option, List, map, foldl}
use commerce_orchestrator_ap.Prelude.Int.{ℤ, pos, max_ℤ, min_ℤ, saturating_add64}

pub record AppliedDiscount : Type 0 where
  pub code : String
  pub description : Option String
  pub amount_minor : ℤ
  pub line_id : Option String

-- `discounts.iter().map(|d| d.amount_minor.max(0))`
abbrev pub granted : AppliedDiscount → ℤ
granted d = max_ℤ d.amount_minor (pos 0)

unfoldable pub total_discount_minor : List AppliedDiscount → ℤ → ℤ
total_discount_minor discounts owed =
    let raw = foldl saturating_add64 (pos 0) (map granted discounts) in
    min_ℤ raw (max_ℤ owed (pos 0))
