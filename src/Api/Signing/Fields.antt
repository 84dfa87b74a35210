-- ===== src/Api/Signing/Fields.antt =====
-- The parsing of the headers Signature-Input and Signature, in parse_dictionary,
-- parse_signature_params and parse_byte_sequence of crates/orchestrator-api/src/signing.rs.
use Prim.Native.Char.{Char, code}
use commerce_orchestrator_ap.Prelude.{
  ℕ, ◌+◌, ◌-◌, ◌%◌, ◌==◌, String, ◌≡◌, refl, Bool, true, false, not, ◌&&◌, ◌||◌, Option, none, some,
  List, [], ◌∷◌, foldl, map, append, retain, if◌then◌else◌,
}
use commerce_orchestrator_ap.Prelude.Int.{ℤ, pos, u32_mod}
use commerce_orchestrator_ap.Prelude.Texts.{
  str_eq, str_is_empty, concat, trim, split_char, strip_prefix,
}
use commerce_orchestrator_ap.Prelude.Parsing.{
  split_once, split_whitespace, strip_suffix_char, push_char, parse_i64,
}
use commerce_orchestrator_ap.Runtime.Result.{Result, ok, err}

pub data SignatureError : Type 0 where
  missing expired digest_mismatch verification_failed : SignatureError
  malformed coverage_insufficient key_not_found algorithm_unsupported : String → SignatureError
  stale : ℤ → SignatureError

-- `ok_or`
abbrev pub or_error : {A : Type 0} → SignatureError → Option A → Result SignatureError A
or_error e none = err e
or_error e (some a) = ok a

-- The operator `?`, with what follows it.
unfoldable pub and_then :
    {A B : Type 0}
    → Result SignatureError A
    → (A → Result SignatureError B)
    → Result SignatureError B
and_then (ok a) f = f a
and_then (err e) f = err e

-- `collect` into a `Result`
abbrev pub collect_ok :
    {A B : Type 0} → (A → Result SignatureError B) → List A → Result SignatureError (List B)
collect_ok f [] = ok []
collect_ok f (a ∷ as_list) =
    let rest = collect_ok f as_list in and_then (f a) (λ b. and_then rest (λ bs. ok (b ∷ bs)))

-- The locals of the loop in `parse_dictionary`.
pub record Scan : Type 0 where
  pub members : List String
  pub current : String
  pub in_string : Bool
  pub in_bytes : Bool
  pub depth : ℕ
  pub escaped : Bool

abbrev pub scan_start : Scan
scan_start = record {
  members = [];
  current = "";
  in_string = false;
  in_bytes = false;
  depth = 0;
  escaped = false;
}

-- The `match` of the loop, for a character that does not end a member; it is pushed after.
unfoldable pub scan_mark : ℕ → Scan → Scan
scan_mark c s =
    if s.escaped
    then record s { escaped = false }
    else if c == b'\\' && s.in_string
    then record s { escaped = true }
    else if c == b'"' && not s.in_bytes
    then record s { in_string = not s.in_string }
    else if c == b':' && not s.in_string
    then record s { in_bytes = not s.in_bytes }
    else if c == b'(' && (not s.in_string && not s.in_bytes)
    then record s { depth = (s.depth + 1) % u32_mod }
    else if c == b')' && (not s.in_string && not s.in_bytes)
    then record s { depth = s.depth - 1 }
    else s

-- A comma that splits: outside texts, byte sequences and inner lists.
abbrev pub splits : ℕ → Scan → Bool
splits c s = not s.escaped && (c == b',' && (not s.in_string && (not s.in_bytes && s.depth == 0)))

unfoldable pub scan_char : Scan → Char → Scan
scan_char s ch =
    let marked = scan_mark (code ch) s in
    if splits (code ch) s
    then record s { members = append s.members s.current; current = "" }
    else record marked { current = push_char marked.current ch }

abbrev chars : String → List Char
chars String.[] = []
chars (String.◌∷◌ c s) = c ∷ chars s

-- `'{member}' is not key=value`, or the two sides.
unfoldable pub key_value : String → Result SignatureError (String × String)
key_value member = elim (split_once b'=' member) [
  | none ↦ err (malformed (concat ("'" ∷ member ∷ "' is not key=value" ∷ [])))
  | some (key, value) ↦ ok (trim key, trim value)
]

abbrev pub members_of : Scan → Result SignatureError (List (String × String))
members_of s =
    if s.in_string || (s.in_bytes || not (s.depth == 0))
    then err (malformed "unbalanced structured field")
    else collect_ok key_value
        (retain (λ m. not (str_is_empty m)) (map trim (append s.members s.current)))

unfoldable pub parse_dictionary : String → Result SignatureError (List (String × String))
parse_dictionary header = members_of (foldl scan_char scan_start (chars header))

pub record SignatureParams : Type 0 where
  pub covered : List String
  pub created : Option ℤ
  pub expires : Option ℤ
  pub keyid : String
  pub alg : Option String

abbrev pub quoted : String → Option String
quoted item = elim (strip_prefix "\"" item) [ none ↦ none | some i ↦ strip_suffix_char b'"' i ]

abbrev pub component : String → Result SignatureError String
component item =
    or_error (malformed "covered components must be quoted strings without parameters")
      (quoted item)

abbrev pub string_value : String → String → Result SignatureError String
string_value name value =
    or_error (malformed (concat ("'" ∷ name ∷ "' must be a string" ∷ []))) (quoted value)

abbrev pub integer_value : String → String → Result SignatureError ℤ
integer_value name value =
    or_error (malformed (concat ("'" ∷ name ∷ "' must be an integer" ∷ []))) (parse_i64 value)

abbrev pub or_flag : String → Option (String × String) → String × String
or_flag param none = (param, "?1")
or_flag param (some pair) = pair

-- `match name`
unfoldable pub set_param : SignatureParams → String × String → Result SignatureError SignatureParams
set_param parsed (name, value) =
    if str_eq name "created"
    then and_then (integer_value name value) (λ z. ok (record parsed { created = some z }))
    else if str_eq name "expires"
    then and_then (integer_value name value) (λ z. ok (record parsed { expires = some z }))
    else if str_eq name "keyid"
    then and_then (string_value name value) (λ s. ok (record parsed { keyid = s }))
    else if str_eq name "alg"
    then and_then (string_value name value) (λ s. ok (record parsed { alg = some s }))
    else ok parsed

abbrev pub set_params : List String → SignatureParams → Result SignatureError SignatureParams
set_params [] parsed = ok parsed
set_params (param ∷ rest) parsed =
    and_then (set_param parsed (or_flag param (split_once b'=' param))) (set_params rest)

abbrev pub require_keyid : SignatureParams → Result SignatureError SignatureParams
require_keyid parsed =
    if str_is_empty parsed.keyid then err (malformed "keyid parameter is required") else ok parsed

abbrev pub with_list : String × String → Result SignatureError SignatureParams
with_list (list, params) = and_then (collect_ok component (split_whitespace list)) (λ covered.
    and_then
      (set_params (retain (λ p. not (str_is_empty p)) (map trim (split_char b';' params)))
        (record { covered = covered; created = none; expires = none; keyid = ""; alg = none }))
      require_keyid)

unfoldable pub parse_signature_params : String → Result SignatureError SignatureParams
parse_signature_params raw =
    and_then
      (or_error (malformed "Signature-Input member must be an inner list")
        (strip_prefix "(" (trim raw)))
      (λ rest.
        and_then (or_error (malformed "unterminated inner list") (split_once b')' rest)) with_list)

-- `parse_byte_sequence`, with the decoding of base64.
unfoldable pub parse_byte_sequence : (String → Option (List ℕ)) → String → Option (List ℕ)
parse_byte_sequence decode_base64 value = elim (strip_prefix ":" (trim value)) [
  | none ↦ none
  | some inner ↦ elim (split_once b':' inner) [ none ↦ none | some (text, _) ↦ decode_base64 text ]
]

parse_dictionary_test :
    parse_dictionary "sig1=(\"a\" \"b\");keyid=\"k,1\", sig2=:YQ==:"
    ≡ ok (("sig1", "(\"a\" \"b\");keyid=\"k,1\"") ∷ ("sig2", ":YQ==:") ∷ [])
unfolding parse_dictionary scan_char scan_mark trim push_char and_then key_value split_once
parse_dictionary_test = refl

parse_signature_params_test :
    parse_signature_params "(\"@method\" \"@path\");created=1;keyid=\"k\";tag=\"t\""
    ≡ ok (record {
      covered = "@method" ∷ "@path" ∷ [];
      created = some (pos 1);
      expires = none;
      keyid = "k";
      alg = none;
    })
unfolding parse_signature_params and_then strip_prefix trim split_once split_whitespace
    strip_suffix_char split_char set_param parse_i64
parse_signature_params_test = refl
