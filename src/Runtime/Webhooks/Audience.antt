-- ===== src/Runtime/Webhooks/Audience.antt =====
-- Who gets a message, in WebhookDeliverer of crates/orchestrator-runtime/src/webhooks.rs.
use mathlib.Core.Option.{some-injective}
use mathlib.Core.List.{Memᴰ}
use mathlib.Core.List.Memᴰ.{head, tail, not-nil, cases_cons}
use commerce_orchestrator_ap.Prelude.{
  ℕ, ap, ◌≢◌, ◌+◌, String, ◌≡◌, refl, sym, ◌∙◌, Bool, true, false, ◌&&◌, ◌||◌, any, subst, Option,
  none, some, List, [], ◌∷◌, map, if◌then◌else◌, Bool-cases, Option-cases, inl, inr, ◌↔◌,
}
use commerce_orchestrator_ap.Prelude.Texts.{
  str_eq, str_eq_sound, str_eq_refl, str_is_empty_iff, trim, str_is_empty,
}
use commerce_orchestrator_ap.Runtime.Result.{ok, err}
use commerce_orchestrator_ap.Runtime.Stores.Effects.{OutboxMessage}
use commerce_orchestrator_ap.Runtime.Webhooks.{
  WebhookRegistration, Webhooks, values_where, wants, matches, list_active_for_topic, Post, Outside,
  owner_of, post_of, post_all, outcome, deliver_to, deliver,
}

-- An active registration of the message's own tenant that wants its topic.
pub record IsSubscriber (message : OutboxMessage) (records : Webhooks) (r : WebhookRegistration)
    : Type 0 where
  pub id : String
  pub held : Memᴰ (id, r) records
  pub active : r.active ≡ true
  pub owner : String
  pub named : message.tenant_id ≡ some owner
  pub owner_given : trim owner ≢ ""
  pub same_tenant : r.tenant_id ≡ trim owner
  pub wanted : (topics : List String) → r.event_filter ≡ some topics → Memᴰ message.topic topics

-- The post that a registration is due: to its address, about the message, signed with its secret.
abbrev pub due_post : Outside → OutboxMessage → String → WebhookRegistration → Post
due_post outside message body r = record {
  url = r.url;
  webhook_id = message.id;
  webhook_topic = message.topic;
  signature = outside.compute_signature r.secret body;
  body = body;
}

any-Memᴰ :
    (topic : String) (topics : List String)
    → any (λ t. str_eq t topic) topics ≡ true
    → Memᴰ topic topics
any-Memᴰ topic [] h = absurd cc
any-Memᴰ topic (t ∷ topics) h = elim (Bool-cases (str_eq t topic)) [
  | inl same ↦ head (sym (str_eq_sound t topic same))
  | inr other ↦ tail (any-Memᴰ topic topics (rw other at h))
]

Memᴰ-any :
    (topic : String) (topics : List String)
    → Memᴰ topic topics
    → any (λ t. str_eq t topic) topics ≡ true
Memᴰ-any topic [] m = absurd (not-nil m)
Memᴰ-any topic (t ∷ topics) m = elim (cases_cons m) [
  | inl same ↦ rw (sym same, str_eq_refl topic) refl
  | inr later ↦ or_right (str_eq t topic) (Memᴰ-any topic topics later)
]
  where
    or_right : (b : Bool) {c : Bool} → c ≡ true → b || c ≡ true
    or_right true h = refl
    or_right false h = h

-- A filter lets a topic through exactly where it names it, if it names any.
wants-named :
    (filter : Option (List String)) (topic : String)
    → wants filter topic ≡ true
    → (topics : List String) → filter ≡ some topics
    → Memᴰ topic topics
wants-named none topic h topics e = absurd cc
wants-named (some named) topic h topics e =
    subst (λ l. Memᴰ topic l) (some-injective _ _ e) (any-Memᴰ topic named h)

named-wants :
    (filter : Option (List String)) (topic : String)
    → ((topics : List String) → filter ≡ some topics → Memᴰ topic topics)
    → wants filter topic ≡ true
named-wants none topic h = refl
named-wants (some named) topic h = Memᴰ-any topic named (h named refl)

module _ {A C : Type 0} (f : A → C) where
  map-Memᴰ : (b : C) (xs : List A) → Memᴰ b (map f xs) → (a : A) × (Memᴰ a xs × (b ≡ f a))
  map-Memᴰ b [] m = absurd (not-nil m)
  map-Memᴰ b (x ∷ xs) m = elim (cases_cons m) [
    | inl e ↦ (x, (head refl, e))
    | inr later ↦ let (a, (at, e)) = map-Memᴰ b xs later in (a, (tail at, e))
  ]

  Memᴰ-map : (a : A) (xs : List A) → Memᴰ a xs → Memᴰ (f a) (map f xs)
  Memᴰ-map a [] m = absurd (not-nil m)
  Memᴰ-map a (x ∷ xs) m = elim (cases_cons m) [
    | inl e ↦ head (ap f e)
    | inr later ↦ tail (Memᴰ-map a xs later)
  ]

kept :
    (b : Bool) {r : WebhookRegistration} (x : WebhookRegistration)
    {found : List WebhookRegistration}
    → Memᴰ r found
    → Memᴰ r (if b then x ∷ found else found)
kept true x m = tail m
kept false x m = m

module _ (p : WebhookRegistration → Bool) where
  values_where-held :
      (r : WebhookRegistration) (records : Webhooks)
      → Memᴰ r (values_where p records)
      → (id : String) × (Memᴰ (id, r) records × (p r ≡ true))
  values_where-held r [] m = absurd (not-nil m)
  values_where-held r ((k, x) ∷ rest) m = elim (Bool-cases (p x)) [
    | inl chosen ↦ elim (cases_cons (rw chosen at m)) [
      | inl e ↦ (k, (head (ap (λ y. (k, y)) e), rw e chosen))
      | inr later ↦ let (id, (held, h)) = values_where-held r rest later in (id, (tail held, h))
    ]
    | inr left ↦
        let (id, (held, h)) = values_where-held r rest (rw left at m) in (id, (tail held, h))
  ]

  held-values_where :
      (r : WebhookRegistration) (id : String) (records : Webhooks)
      → Memᴰ (id, r) records
      → p r ≡ true
      → Memᴰ r (values_where p records)
  held-values_where r id [] m h = absurd (not-nil m)
  held-values_where r id ((k, x) ∷ rest) m h = elim (cases_cons m) [
    | inl e ↦ let same : r ≡ x = ap (λ q. q.1) e in rw (sym same, h) (head refl)
    | inr later ↦ kept (p x) x (held-values_where r id rest later h)
  ]

and_parts : (a b c : Bool) → a && (b && c) ≡ true → (a ≡ true) × ((b ≡ true) × (c ≡ true))
and_parts true true true h = (refl, (refl, refl))
and_parts true true false h = absurd cc
and_parts true false c h = absurd cc
and_parts false b c h = absurd cc

blank_or_given :
    (trimmed t : String)
    → (if str_is_empty trimmed then none else some trimmed) ≡ some t
    → (trimmed ≢ "") × (t ≡ trimmed)
blank_or_given String.[] t h = absurd cc
blank_or_given (String.◌∷◌ c x) t h =
    ((str_is_empty_iff (String.◌∷◌ c x)).0 refl, sym (some-injective _ _ h))

-- The three tests of `matches`.
matches-parts :
    (tenant_id topic : String) (r : WebhookRegistration)
    → matches tenant_id topic r ≡ true
    → (r.active ≡ true)
      × ((str_eq r.tenant_id tenant_id ≡ true) × (wants r.event_filter topic ≡ true))
matches-parts tenant_id topic r h =
    and_parts r.active (str_eq r.tenant_id tenant_id) (wants r.event_filter topic) h

owner_of-named :
    (found : Option String) (t : String)
    → owner_of found ≡ some t
    → (owner : String) × ((found ≡ some owner) × ((trim owner ≢ "") × (t ≡ trim owner)))
unfolding owner_of
owner_of-named none t h = absurd cc
owner_of-named (some o) t h = (o, (refl, blank_or_given (trim o) t h))

owner_of-given :
    (found : Option String) (owner : String)
    → found ≡ some owner
    → trim owner ≢ ""
    → owner_of found ≡ some (trim owner)
unfolding owner_of
owner_of-given none owner e h = absurd cc
owner_of-given (some o) owner e h =
    let same : o ≡ owner = some-injective _ _ e in
    rw (same, (str_is_empty_iff (trim owner)).1 h) refl

module _ (outside : Outside) (message : OutboxMessage) where
  post_all-map :
      (moment : ℕ) (body : String) (last : Option String) (regs : List WebhookRegistration)
      → (post_all outside moment message body last regs).0 ≡ map (post_of outside message body) regs
  unfolding post_all
  post_all-map moment body last [] = refl
  post_all-map moment body last (reg ∷ rest) =
      ap (λ posts. post_of outside message body reg ∷ posts) (post_all-map (moment + 1) body _ rest)

  outcome-posts : (r : List Post × Option String) → (outcome outside r).1 ≡ r.0
  outcome-posts (posts, none) = refl
  outcome-posts (posts, some e) = refl

  -- The posts of a delivery to given registrations.
  sent-posts :
      (moment : ℕ) (body : String) (regs : List WebhookRegistration)
      → outside.to_vec message ≡ ok body
      → (deliver_to outside moment message regs).1 ≡ map (post_of outside message body) regs
  sent-posts moment body [] e = refl
  sent-posts moment body (reg ∷ rest) e = rw e (
      outcome-posts (post_all outside moment message body none (reg ∷ rest))
      ∙ post_all-map moment body none (reg ∷ rest))

  unsent-posts :
      (moment : ℕ) (e : String) (regs : List WebhookRegistration)
      → outside.to_vec message ≡ err e
      → (deliver_to outside moment message regs).1 ≡ []
  unsent-posts moment e [] h = refl
  unsent-posts moment e (reg ∷ rest) h = rw h refl

  module _ (moment : ℕ) (records : Webhooks) where
    subscriber-matches :
        (r : WebhookRegistration) (s : IsSubscriber message records r)
        → matches (trim s.owner) message.topic r ≡ true
    subscriber-matches r s =
        rw (s.active, s.same_tenant, str_eq_refl (trim s.owner))
          (named-wants r.event_filter message.topic s.wanted)

    -- Where the message can be written as JSON, the posts of a delivery are exactly those due to the
    -- active registrations of the message's own tenant that have no filter or name its topic in
    -- theirs: each goes to the registration's address with the message's id, topic and body, signed
    -- with that registration's secret. A message without a tenant is posted to nobody.
    pub deliver-Audience :
        (body : String)
        → outside.to_vec message ≡ ok body
        → (post : Post)
        → Memᴰ post (deliver outside moment message records).1 ↔ (
            (r : WebhookRegistration) × (IsSubscriber message records r
              × (post ≡ due_post outside message body r)))
    unfolding deliver list_active_for_topic
    deliver-Audience body e post = (
      λ m. elim (Option-cases (owner_of message.tenant_id)) [
        | inl nobody ↦ absurd (not-nil (rw nobody at m))
        | inr (t, at) ↦
            let (owner, (named, (given, trimmed))) = owner_of-named message.tenant_id t at in
            let posts = rw (at, sent-posts moment body _ e) at m in
            let (r, (chosen, same)) = map-Memᴰ (post_of outside message body) post _ posts in
            let (id, (held, h)) = values_where-held _ r records chosen in
            let (active, (tenant, wanted)) = matches-parts t message.topic r h in
            (
              r,
              (
                record {
                  id = id;
                  held = held;
                  active = active;
                  owner = owner;
                  named = named;
                  owner_given = given;
                  same_tenant = str_eq_sound r.tenant_id t tenant ∙ trimmed;
                  wanted = wants-named r.event_filter message.topic wanted;
                },
                same,
              ),
            )
      ],
      λ (r, (s, same)).
          rw
            (
              owner_of-given message.tenant_id s.owner s.named s.owner_given,
              sent-posts moment body _ e,
              same,
            )
            (Memᴰ-map (post_of outside message body) r _
              (held-values_where _ r s.id records s.held (subscriber-matches r s))),
    )
