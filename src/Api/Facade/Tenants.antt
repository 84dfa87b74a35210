-- ===== src/Api/Facade/Tenants.antt =====
-- Whose carts a tenant's commands reach, in dispatch_cart_command_for_tenant of
-- crates/orchestrator-api/src/facade.rs.
use mathlib.Core.Option.{some-injective}
use commerce_orchestrator_ap.Prelude.{
  ap, sym, ◌∙◌, String, ◌≡◌, refl, Bool, true, false, Option, none, some, if◌then◌else◌,
  Option-cases, inl, inr, Bool-cases,
}
use commerce_orchestrator_ap.Prelude.Texts.{str_eq_sound, str_eq_refl}
use commerce_orchestrator_ap.Prelude.Eq.{nat_eq}
use commerce_orchestrator_ap.Prelude.Dict.{lookup}
use commerce_orchestrator_ap.Core.Contract.{
  CartId, CartCommand, create_cart, add_item, update_item_qty, remove_item, apply_adjustment,
  get_cart, start_checkout, cancel_cart, with_tenant, CartProjection,
}
use commerce_orchestrator_ap.Core.Validation.{validate_cart_command}
use commerce_orchestrator_ap.Runtime.Result.{Result, ok, err, map_err}
use commerce_orchestrator_ap.Runtime.Monad
use commerce_orchestrator_ap.Runtime.Monad.{
  M, Stores, Runner, RunnerError, raise, ask, call, or_raise, continue,
}
use commerce_orchestrator_ap.Runtime.Runner.Events.{
  get_cart_snapshot, require_cart, require_cart-missing,
}
use commerce_orchestrator_ap.Runtime.Runner.Fulfillment.{set_fulfillment_selection}
use commerce_orchestrator_ap.Runtime.Runner.Carts
use commerce_orchestrator_ap.Runtime.Runner.Carts.{
  add, update_qty, remove, adjust, start, cancel_it, handle,
}
use commerce_orchestrator_ap.Api.Error.{FacadeError, authz, tenant_mismatch}
use commerce_orchestrator_ap.Api.Facade.{
  OrchestratorFacade, lift, give, refuse, proceed, ◌>>=◌, cart_id_from_command, or_else, is_owner,
  dispatch_cart_command, assert_cart_belongs_to, check_target, dispatch_cart_command_for_tenant,
}

-- The cart that a command works on: the one in its payload where it has one, and otherwise the one
-- that is given beside it.
abbrev pub target_of : CartCommand → Option CartId → Option CartId
target_of (create_cart _) cart_id = none
target_of command cart_id = or_else (cart_id_from_command command) cart_id

abbrev pub is_create : CartCommand → Bool
is_create (create_cart _) = true
is_create _ = false

abbrev Fails : {E A : Type 0} → Result E A × Stores → Type 0
Fails (ok a, s) = ⊥
Fails (err e, s) = Unit

-- The cart that would be worked on, if any, is not stored.
abbrev Missing : Option CartId → Stores → Type 0
Missing none s = Unit
Missing (some id) s = lookup id s.cart_snapshots ≡ none

module _ {A B : Type 0} where
  continue-Fails :
      (r : Result RunnerError A) (f : A → M B) (s : Stores)
      → ((a : A) → Fails (f a s))
      → Fails (continue r f s)
  continue-Fails (ok a) f s h = h a
  continue-Fails (err e) f s h = tt

  bind-Fails :
      (m : M A) (f : A → M B) (s : Stores)
      → ((a : A) → Fails (f a (m s).1))
      → Fails ((Monad.◌>>=◌ m f) s)
  unfolding Monad.◌>>=◌
  bind-Fails m f s h = continue-Fails (m s).0 f (m s).1 h

module _ {B : Type 0} where
  cart-Fails :
      (id : CartId) (f : CartProjection → M B) (s : Stores)
      → lookup id s.cart_snapshots ≡ none
      → Fails ((Monad.◌>>=◌ (require_cart id) f) s)
  cart-Fails id f s h = rw (require_cart-missing id f s h) tt

  -- A method that first asks for an id.
  id-Fails :
      (cart_id : Option CartId) (f : CartId → M B) (s : Stores)
      → ((id : CartId) → cart_id ≡ some id → Fails (f id s))
      → Fails ((Monad.◌>>=◌ (or_raise cart_id Monad.missing_cart_id) f) s)
  unfolding Monad.◌>>=◌ or_raise
  id-Fails none f s h = tt
  id-Fails (some id) f s h = h id refl

Missing-lookup :
    (cart_id : Option CartId) (id : CartId) (s : Stores)
    → Missing cart_id s
    → cart_id ≡ some id
    → lookup id s.cart_snapshots ≡ none
Missing-lookup none id s h e = cc
Missing-lookup (some j) id s h e = rw (sym (some-injective _ _ e)) h

if-Fails :
    {A : Type 0} (e : RunnerError) (m : M A) (s : Stores) (b : Bool)
    → Fails (m s)
    → Fails ((if b then m else raise e) s)
unfolding raise
if-Fails e m s true h = h
if-Fails e m s false h = tt

module _ (runner : Runner) (cart_id : Option CartId) (s : Stores) where
  handle-Fails :
      (command : CartCommand)
      → is_create command ≡ false
      → Missing (target_of command cart_id) s
      → Fails (handle runner command cart_id s)
  unfolding cart_id_from_command add update_qty remove adjust start cancel_it
      set_fulfillment_selection call require_cart get_cart_snapshot or_raise Monad.◌>>=◌
  handle-Fails (create_cart p) new h = cc
  handle-Fails (add_item p) new h = id-Fails cart_id _ s λ id e.
      bind-Fails (call Monad.catalog λ n. runner.providers.get_item n p.item_id) _ s
        λ item. cart-Fails id _ _ (Missing-lookup cart_id id s h e)
  handle-Fails (update_item_qty p) new h =
      id-Fails cart_id _ s λ id e. cart-Fails id _ s (Missing-lookup cart_id id s h e)
  handle-Fails (remove_item p) new h =
      id-Fails cart_id _ s λ id e. cart-Fails id _ s (Missing-lookup cart_id id s h e)
  handle-Fails (apply_adjustment p) new h =
      id-Fails cart_id _ s λ id e. cart-Fails id _ s (Missing-lookup cart_id id s h e)
  handle-Fails (CartCommand.set_fulfillment_selection p) new h =
      id-Fails cart_id _ s λ id e. cart-Fails id _ s (Missing-lookup cart_id id s h e)
  handle-Fails (get_cart p) new h = rw h tt
  handle-Fails (start_checkout p) new h = cart-Fails p.cart_id _ s h
  handle-Fails (cancel_cart p) new h = cart-Fails p.cart_id _ s h

  dispatch-Fails :
      (command : CartCommand)
      → is_create command ≡ false
      → Missing (target_of command cart_id) s
      → Fails (Carts.dispatch_cart_command runner command cart_id s)
  unfolding Carts.dispatch_cart_command raise
  dispatch-Fails command new h =
      if-Fails _ (handle runner command cart_id) s (validate_cart_command command).valid
        (handle-Fails command new h)

stamped_target :
    (command : CartCommand) (tenant_id : String)
    → is_create command ≡ false
    → with_tenant command tenant_id ≡ command
unfolding with_tenant
stamped_target (create_cart p) tenant_id h = cc
stamped_target (add_item p) tenant_id h = refl
stamped_target (update_item_qty p) tenant_id h = refl
stamped_target (remove_item p) tenant_id h = refl
stamped_target (apply_adjustment p) tenant_id h = refl
stamped_target (CartCommand.set_fulfillment_selection p) tenant_id h = refl
stamped_target (get_cart p) tenant_id h = refl
stamped_target (start_checkout p) tenant_id h = refl
stamped_target (cancel_cart p) tenant_id h = refl

owner_is :
    (owner : Option String) (tenant_id : String)
    → is_owner owner tenant_id ≡ true
    → owner ≡ some tenant_id
owner_is none tenant_id h = cc
owner_is (some o) tenant_id h = ap some (str_eq_sound o tenant_id h)

lift-Fails :
    {A : Type 0} (r : Result RunnerError A) (t : Stores) (a : A)
    → Fails (r, t)
    → map_err FacadeError.runner r ≡ ok a
    → ⊥
lift-Fails (ok b) t a h e = h
lift-Fails (err x) t a h e = cc

owned_answer :
    (b : Bool) (s : Stores)
    → (if b then give tt else refuse (authz tenant_mismatch)) s
      ≡ (if b then (ok tt, s) else (err (authz tenant_mismatch), s))
unfolding give refuse
owned_answer true s = refl
owned_answer false s = refl

-- A payload's cart comes before the one beside it, and is then the only one that is read.
payload_first :
    (command : CartCommand) (mine theirs : CartId)
    → is_create command ≡ false
    → cart_id_from_command command ≡ some theirs
    → target_of command (some mine) ≡ some theirs
unfolding cart_id_from_command
payload_first (create_cart p) mine theirs new h = cc
payload_first (add_item p) mine theirs new h = cc
payload_first (update_item_qty p) mine theirs new h = cc
payload_first (remove_item p) mine theirs new h = cc
payload_first (apply_adjustment p) mine theirs new h = cc
payload_first (CartCommand.set_fulfillment_selection p) mine theirs new h = cc
payload_first (get_cart p) mine theirs new h = h
payload_first (start_checkout p) mine theirs new h = h
payload_first (cancel_cart p) mine theirs new h = h

same_arm :
    (runner : Runner) (command : CartCommand) (mine theirs : CartId)
    → cart_id_from_command command ≡ some theirs
    → Carts.dispatch_cart_command runner command (some mine)
      ≡ Carts.dispatch_cart_command runner command none
unfolding cart_id_from_command Carts.dispatch_cart_command
same_arm runner (create_cart p) mine theirs h = cc
same_arm runner (add_item p) mine theirs h = cc
same_arm runner (update_item_qty p) mine theirs h = cc
same_arm runner (remove_item p) mine theirs h = cc
same_arm runner (apply_adjustment p) mine theirs h = cc
same_arm runner (CartCommand.set_fulfillment_selection p) mine theirs h = cc
same_arm runner (get_cart p) mine theirs h = refl
same_arm runner (start_checkout p) mine theirs h = refl
same_arm runner (cancel_cart p) mine theirs h = refl

-- What a successful command for a tenant worked on.
pub record WorkedOn (tenant_id : String) (command : CartCommand) (cart_id : Option CartId)
    (s : Stores) : Type 0 where
  pub id : CartId
  pub cart : CartProjection
  pub is_target : target_of command cart_id ≡ some id
  pub stored : lookup id s.cart_snapshots ≡ some cart
  pub owned : cart.tenant_id ≡ some tenant_id

module _ (facade : OrchestratorFacade) (tenant_id : String) where
  -- What the check of the target answers, and that it changes nothing.
  check-Missing :
      (cart_id : Option CartId) (s : Stores)
      → Missing cart_id s
      → check_target facade tenant_id cart_id s ≡ (ok tt, s)
  unfolding give assert_cart_belongs_to get_cart_snapshot Monad.gets lift ◌>>=◌
  check-Missing none s h = refl
  check-Missing (some id) s h = rw h refl

  check-found :
      (id : CartId) (cart : CartProjection) (s : Stores)
      → lookup id s.cart_snapshots ≡ some cart
      → check_target facade tenant_id (some id) s ≡ (
          if is_owner cart.tenant_id tenant_id
          then (ok tt, s)
          else (err (authz tenant_mismatch), s))
  unfolding give refuse assert_cart_belongs_to get_cart_snapshot Monad.gets lift ◌>>=◌
  check-found id cart s h = rw h (owned_answer (is_owner cart.tenant_id tenant_id) s)

  -- The rest of the dispatch, once the check has answered.
  checked :
      (command : CartCommand) (cart_id : Option CartId) (s : Stores)
      → is_create command ≡ false
      → dispatch_cart_command_for_tenant facade tenant_id command cart_id s ≡ (
          let (r, t) =
            check_target facade tenant_id (or_else cart_id (cart_id_from_command command)) s in
          proceed r (λ _. dispatch_cart_command facade command cart_id) t)
  unfolding dispatch_cart_command_for_tenant ◌>>=◌
  checked command cart_id s h = rw (stamped_target command tenant_id h) refl

  failed-not_ok :
      (command : CartCommand) (cart_id : Option CartId) (s : Stores) (c : CartProjection)
      → is_create command ≡ false
      → Missing (target_of command cart_id) s
      → (dispatch_cart_command facade command cart_id s).0 ≡ ok c
      → ⊥
  unfolding dispatch_cart_command lift
  failed-not_ok command cart_id s c new h e =
      let o = Carts.dispatch_cart_command facade.runner command cart_id s in
      lift-Fails o.0 o.1 c (dispatch-Fails facade.runner cart_id s command new h) e

  module _ (command : CartCommand) (cart_id : Option CartId) (s : Stores) (c : CartProjection) where
    own-Missing :
        is_create command ≡ false
        → or_else cart_id (cart_id_from_command command) ≡ target_of command cart_id
        → Missing (target_of command cart_id) s
        → (dispatch_cart_command_for_tenant facade tenant_id command cart_id s).0 ≡ ok c
        → ⊥
    own-Missing new agree h e = failed-not_ok command cart_id s c new h (
        rw (checked command cart_id s new, agree, check-Missing (target_of command cart_id) s h) at
          e)

    own-found :
        (id : CartId) (cart : CartProjection)
        → is_create command ≡ false
        → or_else cart_id (cart_id_from_command command) ≡ some id
        → lookup id s.cart_snapshots ≡ some cart
        → (dispatch_cart_command_for_tenant facade tenant_id command cart_id s).0 ≡ ok c
        → cart.tenant_id ≡ some tenant_id
    own-found id cart new agree h e = elim (Bool-cases (is_owner cart.tenant_id tenant_id)) [
      | inl own ↦ owner_is cart.tenant_id tenant_id own
      | inr other ↦
          absurd
            (cc (rw (checked command cart_id s new, agree, check-found id cart s h, other) at e))
    ]

    -- A command for a tenant that succeeds, and is no creation, worked on a stored cart of that
    -- tenant, where the cart given beside the command is the one that the command's payload names,
    -- or one of the two is not given.
    pub dispatch_for_tenant-WorkedOn :
        is_create command ≡ false
        → or_else cart_id (cart_id_from_command command) ≡ target_of command cart_id
        → (dispatch_cart_command_for_tenant facade tenant_id command cart_id s).0 ≡ ok c
        → WorkedOn tenant_id command cart_id s
    dispatch_for_tenant-WorkedOn new agree e = elim (Option-cases (target_of command cart_id)) [
      | inl without ↦ absurd (own-Missing new agree (rw without tt) e)
      | inr (id, at) ↦ elim (Option-cases (lookup id s.cart_snapshots)) [
        | inl absent ↦ absurd (own-Missing new agree (rw at absent) e)
        | inr (cart, stored) ↦ record {
          id = id;
          cart = cart;
          is_target = at;
          stored = stored;
          owned = own-found id cart new (agree ∙ at) stored e;
        }
      ]
    ]

  -- Beside one of its own carts, a tenant may name another tenant's cart in the payload of GetCart,
  -- StartCheckout or CancelCart: the command then runs on that cart with no check of its owner.
  pub dispatch_for_tenant-trusts_payload :
      (command : CartCommand) (mine theirs : CartId) (own : CartProjection) (s : Stores)
      → is_create command ≡ false
      → lookup mine s.cart_snapshots ≡ some own
      → own.tenant_id ≡ some tenant_id
      → cart_id_from_command command ≡ some theirs
      → (target_of command (some mine) ≡ some theirs)
        × (dispatch_cart_command_for_tenant facade tenant_id command (some mine) s
            ≡ dispatch_cart_command facade command none s)
  unfolding dispatch_cart_command
  dispatch_for_tenant-trusts_payload command mine theirs own s new found owned named = (
    payload_first command mine theirs new named,
    rw
        (
          checked command (some mine) s new,
          check-found mine own s found,
          owned,
          str_eq_refl tenant_id,
          same_arm facade.runner command mine theirs named,
        )
        refl,
  )
