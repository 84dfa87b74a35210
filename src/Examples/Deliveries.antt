-- ===== src/Examples/Deliveries.antt =====
-- Webhooks of two tenants, a drain of one message, and an idempotency store on disk.
use mathlib.Core.List.{Memᴰ}
use commerce_orchestrator_ap.Prelude.{◌≡◌, refl, ◌↔◌, true, none, some, [], ◌∷◌, arith, map}
use commerce_orchestrator_ap.Prelude.Eq.{string_eq}
use commerce_orchestrator_ap.Prelude.Dict.{lookup}
use commerce_orchestrator_ap.Runtime.Result.{ok, err}
use commerce_orchestrator_ap.Runtime.Stores.Effects.{OutboxMessage}
use commerce_orchestrator_ap.Runtime.Stores.Idempotency.{IdempotencyKey, in_flight}
use commerce_orchestrator_ap.Runtime.Monad.{Runner, Stores}
use commerce_orchestrator_ap.Runtime.Webhooks.{
  WebhookRegistration, Webhooks, Outside, Post, deliver,
}
use commerce_orchestrator_ap.Runtime.Webhooks.Audience.{IsSubscriber, due_post, deliver-Audience}
use commerce_orchestrator_ap.Runtime.Processor.{drain, default_processor_config}
use commerce_orchestrator_ap.Runtime.Processor.Drained.{TakesAll, drain-empties}
use commerce_orchestrator_ap.Runtime.Persistence.Disk.{
  Disk, Backed, absent, as_before, torn, persistence_failed, load_or_default,
}
use commerce_orchestrator_ap.Runtime.Persistence.FileBacked
use commerce_orchestrator_ap.Runtime.Persistence.FileBacked.{States}
use commerce_orchestrator_ap.Runtime.Persistence.Refinement.{
  claim, restart, actuals, ideals, Represents, file_backed-refines, failed_claim_takes_key,
}
use commerce_orchestrator_ap.Runtime.Persistence.Keys.{idempotency_key_str}
use commerce_orchestrator_ap.Examples.Samples.{shop, hello, empty_stores}

abbrev hook : WebhookRegistration
hook = record {
  id = "wh";
  tenant_id = "t";
  url = "https://t.example";
  secret = "s";
  event_filter = none;
  active = true;
}

abbrev hooks : Webhooks
hooks = ("wh", hook) ∷ ("other", record hook { id = "other"; tenant_id = "u" }) ∷ []

abbrev outside : Outside
outside = record {
  to_vec = λ m. ok m.payload;
  compute_signature = λ secret body. secret;
  send = λ n post. ok 200;
  status_text = λ s. "200";
}

abbrev tenant_hello : OutboxMessage
tenant_hello = record hello { tenant_id = some "t" }

abbrev hello_post : Post
hello_post = due_post outside tenant_hello "ord" hook

deliver-Audience_example : Memᴰ hello_post (deliver outside 0 tenant_hello hooks).1 ↔ (
    (r : WebhookRegistration) × (IsSubscriber tenant_hello hooks r
      × (hello_post ≡ due_post outside tenant_hello "ord" r)))
deliver-Audience_example = deliver-Audience outside tenant_hello 0 hooks "ord" refl hello_post

-- A shop whose deliveries all go through, at a clock that stands still.
abbrev open_shop : Runner
open_shop = record shop {
  outbox_deliverer = some (λ n m. true);
  world = record { new_v4 = λ n. n; uuid_text = λ u. "u"; instant = λ n. 0; utc = λ n. n };
}

abbrev open_shop_takes : TakesAll open_shop
open_shop_takes = ((λ n m. true), (refl, λ n m. refl))

abbrev one_message : Stores
one_message = record empty_stores { outbox = hello ∷ [] }

drain-empties_example :
    let (handled, t) = drain open_shop default_processor_config 2 one_message in
    (handled ≡ 1) × (t.outbox ≡ [])
drain-empties_example =
    drain-empties open_shop default_processor_config 31 2 one_message open_shop_takes refl
      (λ n. refl) (omega arith)

abbrev sound_disk : Disk
sound_disk = record { fault = λ n. none; left = λ n. as_before }

abbrev failing_disk : Disk
failing_disk = record { fault = λ n. some "full"; left = λ n. torn }

abbrev key : IdempotencyKey
key = record { tenant_id = "t"; merchant_id = "m"; key = "k" }

abbrev blank_store : Backed States
blank_store = record { memory = []; file = absent; moment = 0 }

blank_store-Represents : Represents blank_store []
unfolding lookup load_or_default
blank_store-Represents = record { agrees = λ k h. refl; saved = refl }

file_backed-refines_example :
    actuals sound_disk (claim key ∷ restart ∷ claim key ∷ []) blank_store
    ≡ map ok (ideals (claim key ∷ restart ∷ claim key ∷ []) [])
file_backed-refines_example =
    file_backed-refines sound_disk (λ n. refl) (claim key ∷ restart ∷ claim key ∷ []) blank_store []
      (refl, (refl, (refl, tt))) blank_store-Represents

free : lookup (idempotency_key_str key) blank_store.memory ≡ none
unfolding lookup
free = refl

failed_claim_takes_key_example :
    let (r, c) = FileBacked.claim failing_disk key blank_store in
    (r ≡ err (persistence_failed "full"))
    × (FileBacked.claim sound_disk key c ≡ (ok (some in_flight), c))
failed_claim_takes_key_example =
    failed_claim_takes_key failing_disk sound_disk key blank_store "full" free refl
