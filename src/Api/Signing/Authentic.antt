-- ===== src/Api/Signing/Authentic.antt =====
-- What an accepted signature shows, in VerifyingKeyring of crates/orchestrator-api/src/signing.rs.
use mathlib.Core.List.{Memᴰ}
use mathlib.Core.List.Memᴰ.{head, tail}
use commerce_orchestrator_ap.Prelude.{
  ℕ, ◌+◌, ◌≤◌, ◌≡◌, refl, String, true, ◌||◌, Option, none, some, List, [], ◌∷◌, any, is_empty, inl,
  inr, sym, subst, All,
}
use commerce_orchestrator_ap.Prelude.Int.{ℤ, pos, i64_max, ◌≤ℤ◌}
use commerce_orchestrator_ap.Prelude.Texts.{str_eq}
use commerce_orchestrator_ap.Prelude.Eq.{string_eq}
use commerce_orchestrator_ap.Prelude.Dict.{lookup}
use commerce_orchestrator_ap.Runtime.Result.{ok}
use commerce_orchestrator_ap.Api.Signing.Fields.{
  SignatureError, SignatureParams, parse_signature_params, parse_dictionary, parse_byte_sequence,
}
use commerce_orchestrator_ap.Api.Signing.Messages.{
  Crypto, MessageComponents, VerifyingKeyring, PublicKey, algorithm, http_signature_name, verify,
  signature_base, check_kids, from_entries, verify_one, verify_any, verify_message,
}
use commerce_orchestrator_ap.Api.Signing.Keys.{check_kids_unique, from_entries-ok, lookup-Memᴰ}
use commerce_orchestrator_ap.Api.Signing.Times.{
  and_then-ok, or_error-ok, if_either, parse_signature_params-FitsI64,
}
use commerce_orchestrator_ap.Api.Signing.Checks.{
  check_coverage-All, signature_base-present, times_near, expires_late, algorithm_same,
  judge_base-signed, one_or_more, bytes_of-some,
}

-- An accepted signature, as an account of its own of what makes it one.
pub record Authentic (crypto : Crypto) (keys : VerifyingKeyring) (components : MessageComponents)
    (signature_input signature : String) (required : List String) (n : ℕ) (kid : String)
    : Type 0 where
  pub inputs : List (String × String)
  pub signatures : List (String × String)
  pub label : String
  pub raw_params : String
  pub params : SignatureParams
  pub key : PublicKey
  pub base : String
  pub text : String
  pub bytes : List ℕ
  pub listed : parse_dictionary signature_input ≡ ok inputs
  pub listed_signatures : parse_dictionary signature ≡ ok signatures
  pub under_label : lookup label signatures ≡ some text
  pub decoded : parse_byte_sequence crypto.decode_base64 text ≡ some bytes
  pub named : Memᴰ (label, raw_params) inputs
  pub read : parse_signature_params raw_params ≡ ok params
  pub same_id : kid ≡ params.keyid
  pub covers : All (λ r. any (str_eq r) params.covered ≡ true) required
  pub present :
      (r : String)
      → any (str_eq r) params.covered ≡ true
      → (v : String) × (lookup r components ≡ some v)
  pub near : (c : ℕ) → params.created ≡ some (pos c) → (n ≤ c + 300) × (c ≤ n + 300)
  pub unexpired : (z : ℤ) → params.expires ≡ some z → pos n ≤ℤ z
  pub held : Memᴰ (kid, key) keys
  pub only : (other : PublicKey) → Memᴰ (kid, other) keys → other ≡ key
  pub algorithm_kept : (a : String) → params.alg ≡ some a → a ≡ http_signature_name (algorithm key)
  pub based : signature_base components params.covered raw_params ≡ ok base
  pub signed : verify crypto key base bytes ≡ true

module _ (crypto : Crypto) (entries keys : VerifyingKeyring) (components : MessageComponents)
    (signature_input signature : String) (required : List String) (n : ℕ) (kid : String)
    (ring : from_entries entries ≡ ok keys) (clock : n ≤ i64_max) where
  only_key : (key other : PublicKey) → Memᴰ (kid, key) keys → Memᴰ (kid, other) keys → other ≡ key
  only_key key other m k =
      let (checked, same) = from_entries-ok entries keys ring in
      check_kids_unique [] keys kid other key (subst (λ e. check_kids [] e ≡ ok tt) same checked) k
        m

  verify_one-Authentic :
      (inputs signatures : List (String × String)) (label raw : String)
      → parse_dictionary signature_input ≡ ok inputs
      → parse_dictionary signature ≡ ok signatures
      → Memᴰ (label, raw) inputs
      → verify_one crypto keys components raw (lookup label signatures) required (pos n) ≡ ok kid
      → Authentic crypto keys components signature_input signature required n kid
  unfolding verify_one
  verify_one-Authentic inputs signatures label raw listed listed_signatures named h =
      let (params, (read, h1)) = and_then-ok _ _ h in
      let (_, (covers, h2)) = and_then-ok _ _ h1 in
      let (_, (created, h3)) = and_then-ok _ _ h2 in
      let (_, (expires, h4)) = and_then-ok _ _ h3 in
      let (key, (found, h5)) = and_then-ok _ _ h4 in
      let (_, (alg, h6)) = and_then-ok _ _ h5 in
      let (bytes, (carried, h7)) = and_then-ok _ _ h6 in
      let (base, (based, h8)) = and_then-ok _ _ h7 in
      let (text, (under_label, decoded)) =
        bytes_of-some crypto (lookup label signatures) bytes (or_error-ok _ _ carried) in
      let (same, signed) = judge_base-signed crypto key base params.keyid kid bytes h8 in
      let held : Memᴰ (kid, key) keys =
        subst (λ k. Memᴰ (k, key) keys) (sym same)
          (lookup-Memᴰ params.keyid keys key (or_error-ok _ _ found)) in
      record {
        inputs = inputs;
        label = label;
        raw_params = raw;
        params = params;
        key = key;
        base = base;
        signatures = signatures;
        text = text;
        bytes = bytes;
        listed = listed;
        listed_signatures = listed_signatures;
        under_label = under_label;
        decoded = decoded;
        named = named;
        read = read;
        same_id = same;
        covers = check_coverage-All required params.covered covers;
        present = signature_base-present components params.covered raw base based;
        near =
            times_near n params.created clock (parse_signature_params-FitsI64 raw params read)
              created;
        unexpired = expires_late n params.expires expires;
        held = held;
        only = λ other. only_key key other held;
        algorithm_kept = algorithm_same key params.alg alg;
        based = based;
        signed = signed;
      }

  verify_any-Authentic :
      (inputs rest : List (String × String)) (signatures : List (String × String))
      (first : Option SignatureError)
      → parse_dictionary signature_input ≡ ok inputs
      → parse_dictionary signature ≡ ok signatures
      → ((x : String × String) → Memᴰ x rest → Memᴰ x inputs)
      → verify_any crypto keys components signatures required (pos n) first rest ≡ ok kid
      → Authentic crypto keys components signature_input signature required n kid
  unfolding verify_any
  verify_any-Authentic inputs [] signatures first listed also within h = absurd cc
  verify_any-Authentic inputs ((label, raw) ∷ rest) signatures first listed also within h =
      elim (one_or_more
        (verify_one crypto keys components raw (lookup label signatures) required (pos n)) _ kid
        h) [
          | inl one ↦
              verify_one-Authentic inputs signatures label raw listed also
                (within (label, raw) (head refl)) one
          | inr (e, more) ↦
              verify_any-Authentic inputs rest signatures _ listed also (λ x m. within x (tail m))
                more
        ]

  -- A keyring that is built from its entries accepts a message under a key id only when the input
  -- header has a member of that key id that covers every required component, of each of which (and
  -- of every component it covers) the message has a value; the clock is within 300 seconds of its
  -- creation time, where it has one that is not negative, and not past its expiry; the ring has
  -- exactly one key of that id, whose algorithm is the one that the member names, if it names one;
  -- and that key verifies, over the base of those components, the bytes that the signature header
  -- gives under the label of that very member.
  pub verify_message-Authentic :
      verify_message crypto keys components signature_input signature required (pos n) ≡ ok kid
      → Authentic crypto keys components signature_input signature required n kid
  unfolding verify_message
  verify_message-Authentic h =
      let (inputs, (listed, h1)) = and_then-ok _ _ h in
      let (signatures, (also, h2)) = and_then-ok _ _ h1 in
      if_either (is_empty inputs || is_empty signatures) (λ e. absurd cc)
        (verify_any-Authentic inputs inputs signatures none listed also (λ x m. m)) h2
