-- ===== src/Runtime/Persistence/Keys.antt =====
-- The text keys of crates/orchestrator-runtime/src/persistence/file_backed.rs.
use Prim.Native.Char.{Char, code}
use Prim.Native.String.{String, ◌++◌}
use Prim.Native.String.append
use commerce_orchestrator_ap.Prelude.{◌≡◌, refl, sym, ap, ◌∙◌, Bool, true, false, not, ◌&&◌, ◌==◌}
use commerce_orchestrator_ap.Prelude.Texts.{str_eq, eq_iff}
use commerce_orchestrator_ap.Runtime.Stores.Idempotency.{IdempotencyKey, eq_key, eq_key_iff}

-- `format!("{}|{}|{}", tenant_id, merchant_id, key)`
unfoldable pub idempotency_key_str : IdempotencyKey → String
idempotency_key_str k = k.tenant_id ++ ("|" ++ (k.merchant_id ++ ("|" ++ k.key)))

-- No bar within the text.
abbrev pub is_bar_free : String → Bool
is_bar_free String.[] = true
is_bar_free (String.◌∷◌ c s) = not (code c == b'|') && is_bar_free s

abbrev bar : Char
bar = "|"

-- A bar put before a text.
bar_first : (x : String) → "|" ++ x ≡ String.◌∷◌ bar x
bar_first x = append.cons bar "" x ∙ ap (String.◌∷◌ bar) (append.nil x)

-- A text with a bar behind it, one character at a time.
at_end : (x : String) → "" ++ ("|" ++ x) ≡ String.◌∷◌ bar x
at_end x = append.nil _ ∙ bar_first x

cons_injective : (c d : Char) (s t : String) → String.◌∷◌ c s ≡ String.◌∷◌ d t → (c ≡ d) × (s ≡ t)
cons_injective c d s t e = (cc, cc)

not_bar : (c : Char) (s : String) → is_bar_free (String.◌∷◌ c s) ≡ true → bar ≡ c → ⊥
not_bar c s h e = absurd (cc (rw (sym e) at h))

and_right : (a b : Bool) → a && b ≡ true → b ≡ true
and_right true b h = h
and_right false b h = cc

-- Two texts with a bar behind each are the same only if both parts are.
bar_split :
    (s t x y : String)
    → is_bar_free s ≡ true
    → is_bar_free t ≡ true
    → s ++ ("|" ++ x) ≡ t ++ ("|" ++ y)
    → (s ≡ t) × (x ≡ y)
bar_split String.[] String.[] x y h k e =
    (refl, (cons_injective bar bar x y (sym (at_end x) ∙ (e ∙ at_end y))).1)
bar_split String.[] (String.◌∷◌ c t) x y h k e =
    absurd (
      not_bar c t k
        (cons_injective bar c x _ (sym (at_end x) ∙ (e ∙ append.cons c t ("|" ++ y)))).0)
bar_split (String.◌∷◌ c s) String.[] x y h k e = absurd (
    not_bar c s h
      (cons_injective bar c y _ (sym (at_end y) ∙ (sym e ∙ append.cons c s ("|" ++ x)))).0)
bar_split (String.◌∷◌ c s) (String.◌∷◌ d t) x y h k e =
    let (same, rest) =
      cons_injective c d (s ++ ("|" ++ x)) (t ++ ("|" ++ y))
        (sym (append.cons c s _) ∙ (e ∙ append.cons d t _)) in
    let (front, back) = bar_split s t x y (and_right _ _ h) (and_right _ _ k) rest in (cc, back)

same_truth : (a b : Bool) → (a ≡ true → b ≡ true) → (b ≡ true → a ≡ true) → a ≡ b
same_truth true b h k = sym (h refl)
same_truth false true h k = k refl
same_truth false false h k = refl

-- A key whose tenant and merchant hold no bar.
abbrev pub is_plain : IdempotencyKey → Bool
is_plain k = is_bar_free k.tenant_id && is_bar_free k.merchant_id

and_left : (a b : Bool) → a && b ≡ true → a ≡ true
and_left true b h = refl
and_left false b h = cc

key_str-injective :
    (a b : IdempotencyKey)
    → is_plain a ≡ true
    → is_plain b ≡ true
    → idempotency_key_str a ≡ idempotency_key_str b
    → a ≡ b
unfolding idempotency_key_str
key_str-injective a b h k e =
    let (tenants, rest) =
      bar_split a.tenant_id b.tenant_id _ _ (and_left _ _ h) (and_left _ _ k) e in
    let (merchants, keys) =
      bar_split a.merchant_id b.merchant_id _ _ (and_right _ _ h) (and_right _ _ k) rest in
    cc

-- For plain keys, the test on texts is the test on keys.
pub key_str-eq :
    (a b : IdempotencyKey)
    → is_plain a ≡ true
    → is_plain b ≡ true
    → str_eq (idempotency_key_str a) (idempotency_key_str b) ≡ eq_key a b
key_str-eq a b h k =
    same_truth _ _
      (λ e.
        (eq_key_iff a b).1 (
          key_str-injective a b h k ((eq_iff (idempotency_key_str a) (idempotency_key_str b)).0 e)))
      (λ e.
        (eq_iff (idempotency_key_str a) (idempotency_key_str b)).1
          (ap idempotency_key_str ((eq_key_iff a b).0 e)))
