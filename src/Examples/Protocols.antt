-- ===== src/Examples/Protocols.antt =====
-- The facade over the sample shop: two tenants' carts, and a mandate that is used twice.
use commerce_orchestrator_ap.Prelude.{
  ℕ, zero, suc, ◌+◌, arith, ap, ◌≡◌, refl, true, none, some, [], ◌∷◌, String,
}
use commerce_orchestrator_ap.Prelude.Int.{pos, wrap64, ltb_ℤ}
use commerce_orchestrator_ap.Prelude.Eq.{nat_eq, string_eq}
use commerce_orchestrator_ap.Prelude.Dict.{lookup, insert}
use commerce_orchestrator_ap.Prelude.Texts.{is_blank, trim, eq_ignore_ascii_case, split_char}
use commerce_orchestrator_ap.Core.Contract.{
  CartProjection, CartCommand, get_cart, CheckoutRequest, with_tenant,
}
use commerce_orchestrator_ap.Core.Validation.{validate_cart_command}
use commerce_orchestrator_ap.Runtime.Result.{ok}
use commerce_orchestrator_ap.Runtime.Stores.Effects
use commerce_orchestrator_ap.Runtime.Monad
use commerce_orchestrator_ap.Runtime.Monad.{Stores}
use commerce_orchestrator_ap.Runtime.Runner.Delivery
use commerce_orchestrator_ap.Runtime.Runner.Events.{get_cart_snapshot, require_cart}
use commerce_orchestrator_ap.Runtime.Runner.Carts
use commerce_orchestrator_ap.Api.Ap2.{
  ConsentProof, Ap2Env, Ap2MandateRecord, is_supported_closed_vct, is_supported_open_vct,
  validate_party_fields, validate, verify_ap2_strict, extract_ap2_mandate_record,
}
use commerce_orchestrator_ap.Api.Ap2.Verdict.{Passed, verify_ap2_strict-Passed}
use commerce_orchestrator_ap.Api.Facade.{
  OrchestratorFacade, lift, give, check, or_refuse, ◌>>=◌, cart_id_from_command,
  assert_cart_belongs_to, dispatch_cart_command, dispatch_cart_command_for_tenant, accept_mandate,
  admit_mandate, execute_checkout,
}
use commerce_orchestrator_ap.Api.Facade.Tenants.{
  target_of, WorkedOn, dispatch_for_tenant-WorkedOn, dispatch_for_tenant-trusts_payload,
}
use commerce_orchestrator_ap.Api.Facade.Mandates.{Turned, replay-Turned, recording_time}
use commerce_orchestrator_ap.Api.Acp.{
  UuidCrate, parse_acp_session_id, parse_acp_cart_id, projection_to_acp_session,
  projection_to_acp_cart,
}
use commerce_orchestrator_ap.Api.Acp.Ids.{projection-parse_id}
use commerce_orchestrator_ap.Examples.Samples.{shop, mug_cart, mug_stores, pay_for_mugs}

abbrev consent : ConsentProof
consent = record {
  vct = some "mandate.payment.1";
  issuer = "Bank";
  subject = "buyer";
  mandate_id = "m-1";
  payment_handler_id = "h";
  issued_at = pos 1;
  expires_at = pos 1000;
  signature = "sig";
  nonce = none;
  open_mandate = none;
  checkout_hash = none;
  max_amount_minor = some (pos 5000);
  currency = some "eur";
}

abbrev env : Ap2Env
env = record {
  from_str = λ raw. some consent;
  trusted_issuers_var = some "bank, union";
  since_epoch = λ n. some n;
}

abbrev strict_shop : OrchestratorFacade
strict_shop = record {
  runner = shop;
  ap2_strict = true;
  payment_delegation = none;
  identity_link = none;
  ap2_env = env;
}

abbrev mandated : CheckoutRequest
mandated = record (pay_for_mugs 2100) {
  payment_intent = record (pay_for_mugs 2100).payment_intent {
    ap2_consent_proof = some "proof";
    payment_handler_id = some "h";
  };
}

abbrev other_cart : CartProjection
other_cart = record mug_cart { cart_id = 8; tenant_id = some "u" }

abbrev two_carts : Stores
two_carts = record mug_stores { cart_snapshots = (7, mug_cart) ∷ (8, other_cart) ∷ [] }

abbrev reading : CartCommand
reading = get_cart (record { cart_id = 7 })

reading_succeeds :
    (dispatch_cart_command_for_tenant strict_shop "t" reading none two_carts).0 ≡ ok mug_cart
unfolding dispatch_cart_command_for_tenant ◌>>=◌ cart_id_from_command with_tenant
    assert_cart_belongs_to lift get_cart_snapshot lookup give dispatch_cart_command
    Carts.dispatch_cart_command validate_cart_command require_cart Monad.◌>>=◌ Monad.or_raise
reading_succeeds = refl

reading_agrees : cart_id_from_command reading ≡ target_of reading none
unfolding cart_id_from_command
reading_agrees = refl

dispatch_for_tenant-WorkedOn_example : WorkedOn "t" reading none two_carts
dispatch_for_tenant-WorkedOn_example =
    dispatch_for_tenant-WorkedOn strict_shop "t" reading none two_carts mug_cart refl reading_agrees
      reading_succeeds

-- Tenant "t" names the cart of tenant "u" beside its own.
abbrev spying : CartCommand
spying = get_cart (record { cart_id = 8 })

mine_found : lookup 7 two_carts.cart_snapshots ≡ some mug_cart
unfolding lookup
mine_found = refl

spying_names : cart_id_from_command spying ≡ some 8
unfolding cart_id_from_command
spying_names = refl

dispatch_for_tenant-trusts_payload_example :
    (target_of spying (some 7) ≡ some 8)
    × (dispatch_cart_command_for_tenant strict_shop "t" spying (some 7) two_carts
        ≡ dispatch_cart_command strict_shop spying none two_carts)
dispatch_for_tenant-trusts_payload_example =
    dispatch_for_tenant-trusts_payload strict_shop "t" spying 7 8 mug_cart two_carts refl mine_found
      refl spying_names

spying_leaks :
    (dispatch_cart_command_for_tenant strict_shop "t" spying (some 7) two_carts).0 ≡ ok other_cart
unfolding dispatch_cart_command_for_tenant ◌>>=◌ cart_id_from_command with_tenant
    assert_cart_belongs_to lift get_cart_snapshot lookup give dispatch_cart_command
    Carts.dispatch_cart_command validate_cart_command require_cart Monad.◌>>=◌ Monad.or_raise
spying_leaks = refl

mandated_passes : verify_ap2_strict env 0 mandated ≡ ok tt
unfolding verify_ap2_strict is_blank validate is_supported_closed_vct is_supported_open_vct
    validate_party_fields split_char trim eq_ignore_ascii_case wrap64
mandated_passes = refl

verify_ap2_strict-Passed_example : Passed env 0 mandated
verify_ap2_strict-Passed_example = verify_ap2_strict-Passed env 0 mandated mandated_passes

abbrev mandate : Ap2MandateRecord
mandate = record { mandate_id = "m-1"; expires_at = pos 1000 }

mandated_names : extract_ap2_mandate_record env mandated ≡ ok mandate
unfolding extract_ap2_mandate_record is_blank
mandated_names = refl

mandated_admitted : (admit_mandate strict_shop mandated mug_stores).0 ≡ ok tt
unfolding admit_mandate ◌>>=◌ check verify_ap2_strict is_blank validate is_supported_closed_vct
    is_supported_open_vct validate_party_fields split_char trim eq_ignore_ascii_case wrap64
    accept_mandate or_refuse extract_ap2_mandate_record lift Delivery.record_mandate give insert
    lookup Monad.ask Monad.◌>>=◌ Effects.purge Effects.record_mandate
mandated_admitted = refl

not_yet_expired :
    ltb_ℤ
      (recording_time strict_shop (admit_mandate strict_shop mandated mug_stores).1)
      mandate.expires_at
    ≡ true
unfolding admit_mandate ◌>>=◌ check verify_ap2_strict is_blank validate is_supported_closed_vct
    is_supported_open_vct validate_party_fields split_char trim eq_ignore_ascii_case wrap64
    accept_mandate or_refuse extract_ap2_mandate_record lift Delivery.record_mandate give insert
    lookup Monad.ask Monad.◌>>=◌ Effects.purge Effects.record_mandate
not_yet_expired = refl

-- The stores once the first checkout was let through.
abbrev once : Stores
once = (admit_mandate strict_shop mandated mug_stores).1

replay-Turned_example : Turned once (execute_checkout strict_shop mandated once)
replay-Turned_example =
    replay-Turned strict_shop mandated mandated mandate mug_stores once [] refl mandated_names
      mandated_names mandated_admitted refl tt not_yet_expired

-- A uuid crate that writes a number as so many strokes.
abbrev strokes : ℕ → String
strokes zero = ""
strokes (suc n) = String.◌∷◌ "x" (strokes n)

abbrev tally : String → ℕ
tally String.[] = 0
tally (String.◌∷◌ c s) = tally s + 1

tally-strokes : (n : ℕ) → tally (strokes n) ≡ n
tally-strokes zero = refl
tally-strokes (suc n) = omega (arith, tally-strokes n)

abbrev uuid_crate : UuidCrate
uuid_crate = record { to_string = strokes; from_str = λ s. ok (tally s) }

projection-parse_id_example :
    (parse_acp_session_id uuid_crate (projection_to_acp_session uuid_crate mug_cart).id ≡ ok 7)
    × (parse_acp_cart_id uuid_crate (projection_to_acp_cart uuid_crate mug_cart).id ≡ ok 7)
projection-parse_id_example = projection-parse_id uuid_crate (λ u. ap ok (tally-strokes u)) mug_cart
