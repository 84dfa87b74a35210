-- ===== src/Runtime/Webhooks.antt =====
-- crates/orchestrator-runtime/src/webhooks.rs: the in-memory registrations, and the delivery of a
-- message to them. Metrics and logs are left out.
pub mod Audience
use commerce_orchestrator_ap.Prelude.{
  ℕ, ◌+◌, String, Bool, true, false, not, ◌&&◌, Option, none, some, List, [], ◌∷◌, any, leb, ltb,
  if◌then◌else◌,
}
use commerce_orchestrator_ap.Prelude.Texts.{str_eq, trim, str_is_empty, concat}
use commerce_orchestrator_ap.Prelude.Eq.{string_eq}
use commerce_orchestrator_ap.Prelude.Dict.{Dict, lookup, insert, remove}
use commerce_orchestrator_ap.Runtime.Result.{Result, ok, err}
use commerce_orchestrator_ap.Runtime.Stores.Effects.{OutboxMessage}

pub record WebhookRegistration : Type 0 where
  pub id : String
  pub tenant_id : String
  pub url : String
  pub secret : String
  pub event_filter : Option (List String)
  pub active : Bool

abbrev pub Webhooks : Type 0
Webhooks = Dict String WebhookRegistration

unfoldable pub register : WebhookRegistration → Webhooks → Webhooks
register registration = insert registration.id registration

abbrev is_some : {A : Type 0} → Option A → Bool
is_some none = false
is_some (some _) = true

unfoldable pub unregister : String → Webhooks → Bool × Webhooks
unregister id records = (is_some (lookup id records), remove id records)

-- `values().filter(p).cloned().collect()`
abbrev pub values_where : (WebhookRegistration → Bool) → Webhooks → List WebhookRegistration
values_where p [] = []
values_where p ((_, r) ∷ rest) = let found = values_where p rest in if p r then r ∷ found else found

unfoldable pub list_by_tenant : String → Webhooks → List WebhookRegistration
list_by_tenant tenant_id = values_where λ r. str_eq r.tenant_id tenant_id

-- `event_filter.as_ref().is_none_or(|f| f.iter().any(|t| t == topic))`
abbrev pub wants : Option (List String) → String → Bool
wants none topic = true
wants (some topics) topic = any (λ t. str_eq t topic) topics

abbrev pub matches : String → String → WebhookRegistration → Bool
matches tenant_id topic r = r.active && (str_eq r.tenant_id tenant_id && wants r.event_filter topic)

unfoldable pub list_active_for_topic : String → String → Webhooks → List WebhookRegistration
list_active_for_topic tenant_id topic = values_where (matches tenant_id topic)

-- A request of the HTTP client.
pub record Post : Type 0 where
  pub url : String
  pub webhook_id : String
  pub webhook_topic : String
  pub signature : String
  pub body : String

-- serde_json on the body of a message, the HMAC of a secret and a body, and what the client answers
-- to a post at each moment: a status, or the text of an error.
pub record Outside : Type 0 where
  pub to_vec : OutboxMessage → Result String String
  pub compute_signature : String → String → String
  pub send : ℕ → Post → Result String ℕ
  pub status_text : ℕ → String

-- `map(str::trim).filter(|t| !t.is_empty())`
unfoldable pub owner_of : Option String → Option String
owner_of none = none
owner_of (some t) = if str_is_empty (trim t) then none else some (trim t)

abbrev pub is_success : ℕ → Bool
is_success status = leb 200 status && ltb status 300

module _ (outside : Outside) where
  abbrev pub post_of : OutboxMessage → String → WebhookRegistration → Post
  post_of message body reg = record {
    url = reg.url;
    webhook_id = message.id;
    webhook_topic = message.topic;
    signature = outside.compute_signature reg.secret body;
    body = body;
  }

  -- What an answer leaves in `last_error`.
  abbrev pub error_after : String → Result String ℕ → Option String → Option String
  error_after url (ok code) last =
      if is_success code
      then last
      else some (concat ("webhook " ∷ url ∷ " returned " ∷ outside.status_text code ∷ []))
  error_after url (err e) last = some (concat ("webhook " ∷ url ∷ " failed: " ∷ e ∷ []))

  -- The loop over the registrations: the posts in order, and the last error.
  unfoldable pub post_all :
      ℕ
      → OutboxMessage
      → String
      → Option String
      → List WebhookRegistration
      → List Post × Option String
  post_all moment message body last [] = ([], last)
  post_all moment message body last (reg ∷ rest) =
      let post = post_of message body reg in
      let after = error_after reg.url (outside.send moment post) last in
      let (posts, final) = post_all (moment + 1) message body after rest in (post ∷ posts, final)

  abbrev pub outcome : List Post × Option String → Result String (Unit {0}) × List Post
  outcome (posts, none) = (ok tt, posts)
  outcome (posts, some e) = (err e, posts)

  abbrev pub send_body :
      ℕ
      → OutboxMessage
      → Result String String
      → List WebhookRegistration
      → Result String (Unit {0}) × List Post
  send_body moment message (err e) registrations = (err e, [])
  send_body moment message (ok body) registrations =
      outcome (post_all moment message body none registrations)

  abbrev pub deliver_to :
      ℕ → OutboxMessage → List WebhookRegistration → Result String (Unit {0}) × List Post
  deliver_to moment message [] = (ok tt, [])
  deliver_to moment message (reg ∷ rest) =
      send_body moment message (outside.to_vec message) (reg ∷ rest)

  abbrev pub deliver_for :
      ℕ → OutboxMessage → Webhooks → Option String → Result String (Unit {0}) × List Post
  deliver_for moment message records none = (ok tt, [])
  deliver_for moment message records (some tenant_id) =
      deliver_to moment message (list_active_for_topic tenant_id message.topic records)

  -- The answer to the processor, and the posts that were made.
  unfoldable pub deliver : ℕ → OutboxMessage → Webhooks → Result String (Unit {0}) × List Post
  deliver moment message records = deliver_for moment message records (owner_of message.tenant_id)
