-- ===== src/Runtime/Runner/Checkout.antt =====
-- `execute_checkout` and `settle_cart_for_checkout` of crates/orchestrator-runtime/src/runner.rs.
-- `execute_checkout` is cut at its comments: claim, settle, reserve, then one function for each way
-- to end.
pub mod Settle
pub mod Replay
pub mod Failure
pub mod Stranded
pub mod Quiet
pub mod Charges
use Prim.Native.String.{◌++◌}
use commerce_orchestrator_ap.Prelude.{
  ℕ, String, Bool, true, false, not, ◌==◌, Option, none, some, List, [], ◌∷◌, if◌then◌else◌,
}
use commerce_orchestrator_ap.Prelude.Int.{ℤ, eqb_ℤ}
use commerce_orchestrator_ap.Prelude.Texts.{str_eq, join}
use commerce_orchestrator_ap.Prelude.Eq.{nat_eq, string_eq}
use commerce_orchestrator_ap.Prelude.Dict.{insert}
use commerce_orchestrator_ap.Core.Contract.{
  CartId, CartProjection, CheckoutRequest, TransactionResult, TransactionStatus, TotalsBreakdown,
  PaymentState, captured, failed, PaymentLifecycleRequest, OrderStatus, OrderRecord, Uuid,
  CartLineProjection,
}
use commerce_orchestrator_ap.Core.StateMachine.Checkout.{
  CheckoutState, CheckoutEvent, next_checkout_state, terminal_status,
}
use commerce_orchestrator_ap.Core.Validation.{validate_checkout_request}
use commerce_orchestrator_ap.Core.Policy.{PolicyCheckResult, allowed, rejected, check_checkout}
use commerce_orchestrator_ap.Runtime.Result
use commerce_orchestrator_ap.Runtime.Result.{Result}
use commerce_orchestrator_ap.Runtime.Providers.{AuthResult, PaymentOperationResult}
use commerce_orchestrator_ap.Runtime.Stores.Idempotency
use commerce_orchestrator_ap.Runtime.Stores.Idempotency.{
  IdempotencyKey, IdempotencyState, in_flight, completed,
}
use commerce_orchestrator_ap.Runtime.Stores.Inventory
use commerce_orchestrator_ap.Runtime.Stores.Effects
use commerce_orchestrator_ap.Runtime.Stores.Orders
use commerce_orchestrator_ap.Runtime.Stores.Orders.{CommitRecord}
use commerce_orchestrator_ap.Runtime.Monad.{
  M, Stores, Runner, ◌>>=◌, ◌>>◌, pure, raise, modify, ask, call, pay, authorize, capture, or_raise,
  raise_if, on_error, for_each, validation, already_in_flight, invalid_state_transition,
  cart_tenant_mismatch, cart_version_conflict, geo_blocked, amount_mismatch, receipt,
}
use commerce_orchestrator_ap.Runtime.Runner.Events.{put_cart_snapshot, require_cart}
use commerce_orchestrator_ap.Runtime.Runner.Pricing.{reprice_for_checkout, check_geo}

-- A cart with an owner belongs to another tenant.
abbrev pub foreign : Option String → String → Bool
foreign none tenant_id = false
foreign (some owner) tenant_id = not (str_eq owner tenant_id)

abbrev pub key_of : CheckoutRequest → IdempotencyKey
key_of request = record {
  tenant_id = request.tenant_id;
  merchant_id = request.merchant_id;
  key = request.idempotency_key;
}

abbrev pub totals_of : CartProjection → TotalsBreakdown
totals_of cart = record {
  subtotal_minor = cart.subtotal_minor;
  tax_minor = cart.tax_minor;
  discount_minor = cart.discount_minor;
  fulfillment_minor = cart.fulfillment_minor;
  total_minor = cart.total_minor;
}

-- The stores of the runner, one line each.
unfoldable pub release_key : IdempotencyKey → M (Unit {0})
unfolding modify
release_key key = modify λ s. record s { idempotency = Idempotency.release key s.idempotency }

unfoldable pub complete_key : IdempotencyKey → TransactionResult → M (Unit {0})
unfolding modify
complete_key key result =
    modify λ s. record s { idempotency = Idempotency.complete key result s.idempotency }

unfoldable pub claim_key : IdempotencyKey → M (Option IdempotencyState)
claim_key key s =
    let (found, map) = Idempotency.claim key s.idempotency in
    (Result.ok found, record s { idempotency = map })

unfoldable pub set_reservations : (Inventory.Reservations → Inventory.Reservations) → M (Unit {0})
unfolding modify
set_reservations f = modify λ s. record s { reservations = f s.reservations }

unfoldable pub put_payment_state : String → PaymentState → M (Unit {0})
unfolding modify
put_payment_state id state =
    modify λ s. record s { payment_states = insert id state s.payment_states }

unfoldable pub put_order : OrderRecord → M (Unit {0})
unfolding modify
put_order order = modify λ s. record s { orders = Orders.put order s.orders }

unfoldable pub enqueue : Effects.OutboxMessage → M (Unit {0})
unfolding modify
enqueue message = modify λ s. record s { outbox = Effects.enqueue message s.outbox }

unfoldable pub put_commit : CommitRecord → M (Unit {0})
unfolding modify
put_commit commit = modify λ s. record s { commits = insert commit.cart_id commit s.commits }

-- `next_checkout_state(state, event).ok_or(InvalidStateTransition)?`
abbrev advance : CheckoutState → CheckoutEvent → M CheckoutState
advance state event = or_raise (next_checkout_state state event) invalid_state_transition

-- 300 seconds
abbrev reservation_ttl : ℕ
reservation_ttl = 300000000000

module _ (runner : Runner) where
  unfoldable pub settle_cart_for_checkout : CheckoutRequest → M CartProjection
  settle_cart_for_checkout request = do
    cart ← require_cart request.cart_id
    raise_if (foreign cart.tenant_id request.tenant_id) cart_tenant_mismatch
    raise_if (not (cart.version == request.cart_version))
        (cart_version_conflict request.cart_version cart.version)
    priced ← reprice_for_checkout runner cart
    open_here ← check_geo runner priced
    let settled : CartProjection = record priced { geo_ok = open_here }
    put_cart_snapshot settled
    raise_if (not open_here) geo_blocked
    raise_if (not (eqb_ℤ request.payment_intent.amount_minor settled.total_minor))
        (amount_mismatch settled.total_minor request.payment_intent.amount_minor)
    pure settled

  unfoldable pub reserve_line : CheckoutRequest → CartLineProjection → M (Unit {0})
  reserve_line request line = do
    now ← ask runner.world.instant
    set_reservations
        (Inventory.reserve now request.cart_id line.item_id line.quantity reservation_ttl)

  -- `CommitStore::commit`
  unfoldable pub commit_cart : CartId → Option String → M CommitRecord
  commit_cart cart_id payment_reference = do
    uuid ← ask runner.world.new_v4
    let made : CommitRecord = record {
      transaction_id = "txn_" ++ runner.world.uuid_text uuid;
      cart_id = cart_id;
      payment_reference = payment_reference;
    }
    put_commit made
    pure made

  -- The result of a checkout that charges nothing.
  abbrev failed_result :
      CartProjection
      → TransactionStatus
      → Option String
      → Option String
      → Uuid
      → Uuid
      → TransactionResult
  failed_result cart status reference audit transaction correlation = record {
    transaction_id = "txn_" ++ runner.world.uuid_text transaction;
    status = status;
    totals_breakdown = totals_of cart;
    payment_reference = reference;
    receipt_payload = none;
    correlation_id = correlation;
    audit_trail_id = audit;
    payment_state = failed;
    order_id = none;
  }

  -- The two early returns: the reservations are given back, and the key keeps the result.
  unfoldable pub decline :
      CheckoutRequest
      → CartProjection
      → TransactionStatus
      → Option String
      → Option String
      → M TransactionResult
  decline request cart status reference audit = do
    transaction ← ask runner.world.new_v4
    correlation ← ask runner.world.new_v4
    let result = failed_result cart status reference audit transaction correlation
    set_reservations (Inventory.release_cart request.cart_id)
    complete_key (key_of request) result
    put_payment_state result.transaction_id result.payment_state
    pure result

  abbrev order_of : CheckoutRequest → CartProjection → String → String → Uuid → ℕ → ℕ → OrderRecord
  order_of request cart order_id transaction_id event occurred created = record {
    order_id = order_id;
    tenant_id = request.tenant_id;
    transaction_id = transaction_id;
    checkout_id = request.cart_id;
    status = OrderStatus.created;
    currency = request.currency;
    permalink_url = "/orders/" ++ order_id;
    line_items = cart.lines;
    totals = totals_of cart;
    events =
        (record {
          id = "evt_" ++ runner.world.uuid_text event;
          event_type = "created";
          description = "Order created from committed checkout";
          occurred_at = occurred;
        })
        ∷ [];
    adjustments = [];
    created_at = created;
  }

  abbrev pub capture_request : CheckoutRequest → CartProjection → String → PaymentLifecycleRequest
  capture_request request cart transaction_id = record {
    tenant_id = request.tenant_id;
    merchant_id = request.merchant_id;
    transaction_id = transaction_id;
    amount_minor = cart.total_minor;
    idempotency_key = request.idempotency_key;
  }

  -- The order that a captured checkout leaves.
  unfoldable pub place_order : CheckoutRequest → CartProjection → String → M String
  place_order request cart transaction_id = do
    order_uuid ← ask runner.world.new_v4
    let order_id = "ord_" ++ runner.world.uuid_text order_uuid
    event ← ask runner.world.new_v4
    occurred ← ask runner.world.utc
    created ← ask runner.world.utc
    put_order (order_of request cart order_id transaction_id event occurred created)
    pure order_id

  abbrev captured_or_failed : Bool → PaymentState
  captured_or_failed true = captured
  captured_or_failed false = failed

  -- The receipt, the end of the reservations, the message to the outbox, and the key.
  unfoldable pub conclude :
      CheckoutRequest → CartProjection → TransactionResult → String → M TransactionResult
  conclude request cart result order_id = do
    proof ← call receipt λ n. runner.providers.generate n cart result
    let final : TransactionResult = record result { receipt_payload = some proof.content }
    set_reservations (Inventory.finalize_cart request.cart_id)
    message ← ask runner.world.new_v4
    enqueue (record {
      id = "msg_" ++ runner.world.uuid_text message;
      topic = "order.created";
      payload = order_id;
      correlation_id = runner.world.uuid_text final.correlation_id;
      attempts = 0;
      tenant_id = some request.tenant_id;
    })
    complete_key (key_of request) final
    put_payment_state final.transaction_id final.payment_state
    pure final

  -- From the authorization on.
  unfoldable pub charge :
      CheckoutRequest → CartProjection → CheckoutState → AuthResult → M TransactionResult
  charge request cart state auth = do
    authorized ← advance state CheckoutEvent.payment_authorized
    committed ← commit_cart request.cart_id (some auth.reference)
    let asked = capture_request request cart committed.transaction_id
    taken ← pay (capture asked) λ n. runner.providers.capture n asked
    written ← advance authorized CheckoutEvent.committed
    order_id ← place_order request cart committed.transaction_id
    receipted ← advance written CheckoutEvent.receipt_generated
    finished ← advance receipted CheckoutEvent.complete
    status ← or_raise (terminal_status finished) invalid_state_transition
    correlation ← ask runner.world.new_v4
    conclude request cart
        (record {
          transaction_id = committed.transaction_id;
          status = status;
          totals_breakdown = totals_of cart;
          payment_reference = committed.payment_reference;
          receipt_payload = none;
          correlation_id = correlation;
          audit_trail_id = none;
          payment_state = captured_or_failed taken.success;
          order_id = some order_id;
        })
        order_id

  unfoldable pub after_authorization :
      CheckoutRequest → CartProjection → CheckoutState → AuthResult → M TransactionResult
  after_authorization request cart state auth =
      if auth.authorized
      then charge request cart state auth
      else decline request cart TransactionStatus.auth_failed (some auth.reference) none

  -- The policy's verdict, and the authorization where it allows.
  unfoldable pub after_policy :
      PolicyCheckResult → CheckoutRequest → CartProjection → CheckoutState → M TransactionResult
  after_policy (rejected errors) request cart state =
      decline request cart TransactionStatus.rejected none (some (join ";" errors))
  after_policy allowed request cart state = do
    auth ← pay (authorize request) λ n. runner.providers.authorize n request
    after_authorization request cart state auth

  -- The state machine, up to the policy.
  unfoldable pub run_machine : CheckoutRequest → CartProjection → M TransactionResult
  run_machine request cart = do
    validated ← advance CheckoutState.received CheckoutEvent.validate_passed
    priced ← advance validated CheckoutEvent.price_resolved
    taxed ← advance priced CheckoutEvent.tax_resolved
    checked ← advance taxed CheckoutEvent.geo_validated
    after_policy (check_checkout runner.policy request cart.total_minor) request cart checked

  unfoldable pub checkout_claimed : CheckoutRequest → M TransactionResult
  checkout_claimed request = do
    cart ← on_error (settle_cart_for_checkout request) (release_key (key_of request))
    for_each cart.lines (reserve_line request)
    run_machine request cart

  -- What the claim finds: an earlier request with the same key, or nothing.
  unfoldable pub answer_claim : Option IdempotencyState → CheckoutRequest → M TransactionResult
  answer_claim (some in_flight) request = raise already_in_flight
  answer_claim (some (completed result)) request = pure result
  answer_claim none request = checkout_claimed request

  unfoldable pub execute_checkout : CheckoutRequest → M TransactionResult
  execute_checkout request =
      let checked = validate_checkout_request request in
      if checked.valid
      then (do found ← claim_key (key_of request); answer_claim found request)
      else raise (validation checked.errors)
