-- ===== src/Runtime/Stores/Orders.antt =====
-- crates/orchestrator-runtime/src/{order,commit,payment_state}.rs
use commerce_orchestrator_ap.Prelude.{
  String, Option, none, some, List, [], ◌∷◌, ◌++◌, if◌then◌else◌, leb,
}
use commerce_orchestrator_ap.Prelude.Texts.{str_eq}
use commerce_orchestrator_ap.Prelude.Eq.{string_eq, nat_eq}
use commerce_orchestrator_ap.Prelude.Dict.{Dict, lookup, insert}
use commerce_orchestrator_ap.Core.Contract.{
  OrderRecord, OrderEvent, OrderAdjustment, OrderStatus, CartId, PaymentState,
}

abbrev pub Orders : Type 0
Orders = Dict String OrderRecord

unfoldable pub put : OrderRecord → Orders → Orders
put order = insert order.order_id order

-- `get_mut(order_id)`, a change in place, and the changed record
abbrev change :
    Option OrderRecord → (OrderRecord → OrderRecord) → String → Orders → Option OrderRecord × Orders
change none f order_id records = (none, records)
change (some r) f order_id records = (some (f r), insert order_id (f r) records)

unfoldable pub append_event : String → OrderEvent → Orders → Option OrderRecord × Orders
append_event order_id event records =
    change (lookup order_id records) (λ r. record r { events = r.events ++ event ∷ [] }) order_id
      records

unfoldable pub add_adjustment : String → OrderAdjustment → Orders → Option OrderRecord × Orders
add_adjustment order_id adjustment records =
    change (lookup order_id records)
      (λ r. record r { adjustments = r.adjustments ++ adjustment ∷ [] }) order_id records

unfoldable pub update_status : String → OrderStatus → Orders → Option OrderRecord × Orders
update_status order_id status records =
    change (lookup order_id records) (λ r. record r { status = status }) order_id records

-- `sort_by_key(|order| Reverse(order.created_at))`, a stable sort: an order goes before the first
-- one that is not newer than it.
insert_by_age : OrderRecord → List OrderRecord → List OrderRecord
insert_by_age o [] = o ∷ []
insert_by_age o (x ∷ xs) =
    let rest = insert_by_age o xs in if leb x.created_at o.created_at then o ∷ x ∷ xs else x ∷ rest

sort_by_age : List OrderRecord → List OrderRecord
sort_by_age [] = []
sort_by_age (x ∷ xs) = insert_by_age x (sort_by_age xs)

-- `values().filter(|r| r.tenant_id == tenant_id)`
of_tenant : String → Orders → List OrderRecord
of_tenant tenant_id [] = []
of_tenant tenant_id ((_, r) ∷ rest) =
    let found = of_tenant tenant_id rest in
    if str_eq r.tenant_id tenant_id then r ∷ found else found

unfoldable pub list_by_tenant : String → Orders → List OrderRecord
unfolding sort_by_age insert_by_age of_tenant
list_by_tenant tenant_id records = sort_by_age (of_tenant tenant_id records)

pub record CommitRecord : Type 0 where
  pub transaction_id : String
  pub cart_id : CartId
  pub payment_reference : Option String

abbrev pub Commits : Type 0
Commits = Dict CartId CommitRecord

abbrev pub PaymentStates : Type 0
PaymentStates = Dict String PaymentState
