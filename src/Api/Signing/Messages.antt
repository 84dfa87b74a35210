-- ===== src/Api/Signing/Messages.antt =====
-- The keys, the signature base and the acceptance of a signed message, in MessageComponents,
-- signature_base and VerifyingKeyring of crates/orchestrator-api/src/signing.rs.
use commerce_orchestrator_ap.Prelude.{
  ℕ, ◌==◌, ◌++◌, length, String, Bool, false, not, ◌||◌, Option, none, some, List, [], ◌∷◌, find,
  any, append, is_empty, if◌then◌else◌,
}
use commerce_orchestrator_ap.Prelude.Int.{ℤ, pos, ltb_ℤ, sub64}
use commerce_orchestrator_ap.Prelude.Texts.{str_eq, concat, is_blank}
use commerce_orchestrator_ap.Prelude.Eq.{string_eq}
use commerce_orchestrator_ap.Prelude.Dict.{Dict, lookup}
use commerce_orchestrator_ap.Runtime.Result.{Result, ok, err}
use commerce_orchestrator_ap.Api.Signing.KeyError.{SigningKeyError, missing_kid, duplicate_kid}
use commerce_orchestrator_ap.Api.Signing.Fields.{
  SignatureError, missing, malformed, coverage_insufficient, stale, expired, key_not_found,
  algorithm_unsupported, verification_failed, or_error, and_then, SignatureParams,
  parse_signature_params, parse_dictionary, parse_byte_sequence,
}

pub data KeyAlgorithm : Type 0 where
  eddsa es256 : KeyAlgorithm

unfoldable pub http_signature_name : KeyAlgorithm → String
http_signature_name eddsa = "ed25519"
http_signature_name es256 = "ecdsa-p256-sha256"

-- The bytes of a key; its type is the constructor.
pub data PublicKey : Type 0 where
  ed25519 p256 : List ℕ → PublicKey

abbrev pub algorithm : PublicKey → KeyAlgorithm
algorithm (ed25519 _) = eddsa
algorithm (p256 _) = es256

-- The crates base64, ed25519_dalek and p256: the decoding of standard base64, the two
-- verifications of a text against a signature, and the reading of a signature of P-256.
pub record Crypto : Type 0 where
  pub decode_base64 : String → Option (List ℕ)
  pub verify_ed25519 : List ℕ → String → List ℕ → Bool
  pub verify_p256 : List ℕ → String → List ℕ → Bool
  pub p256_from_slice : List ℕ → Option (List ℕ)

-- `PublicKey::verify`
unfoldable pub verify : Crypto → PublicKey → String → List ℕ → Bool
verify crypto (ed25519 key) payload signature =
    if length signature == 64 then crypto.verify_ed25519 key payload signature else false
verify crypto (p256 key) payload signature = elim (crypto.p256_from_slice signature) [
  | none ↦ false
  | some read_signature ↦ crypto.verify_p256 key payload read_signature
]

-- The values by their names, which `insert` has lowercased and trimmed.
abbrev pub MessageComponents : Type 0
MessageComponents = Dict String String

abbrev component_line : String → String → String
component_line name value = concat ("\"" ∷ name ∷ "\": " ∷ value ∷ "\n" ∷ [])

abbrev absent : String → SignatureError
absent name =
    malformed (concat ("covered component '" ∷ name ∷ "' is absent from the message" ∷ []))

abbrev pub base_lines : MessageComponents → List String → Result SignatureError String
base_lines components [] = ok ""
base_lines components (name ∷ rest) =
    let lines = base_lines components rest in
    and_then (or_error (absent name) (lookup name components))
      (λ value. and_then lines (λ text. ok (concat (component_line name value ∷ text ∷ []))))

unfoldable pub signature_base :
    MessageComponents → List String → String → Result SignatureError String
signature_base components covered params =
    and_then (base_lines components covered)
      (λ lines. ok (concat (lines ∷ "\"@signature-params\": " ∷ params ∷ [])))

abbrev pub VerifyingKeyring : Type 0
VerifyingKeyring = List (String × PublicKey)

-- The loop of `from_entries`, with the ids that were seen.
abbrev pub check_kids : List String → VerifyingKeyring → Result SigningKeyError (Unit {0})
check_kids seen [] = ok tt
check_kids seen ((kid, _) ∷ entries) =
    let rest = check_kids (append seen kid) entries in
    if is_blank kid
    then err missing_kid
    else if any (str_eq kid) seen
    then err (duplicate_kid kid)
    else rest

unfoldable pub from_entries : VerifyingKeyring → Result SigningKeyError VerifyingKeyring
from_entries entries = elim (check_kids [] entries) [ ok _ ↦ ok entries | err e ↦ err e ]

unfoldable pub merge : VerifyingKeyring → VerifyingKeyring → Result SigningKeyError VerifyingKeyring
merge keys others = from_entries (keys ++ others)

-- `i64::abs` in a release build
abbrev pub abs64 : ℤ → ℤ
abs64 z = if ltb_ℤ z (pos 0) then sub64 (pos 0) z else z

abbrev pub max_signature_skew_seconds : ℤ
max_signature_skew_seconds = pos 300

abbrev pub check_coverage : List String → List String → Result SignatureError (Unit {0})
check_coverage required covered = elim (find (λ r. not (any (str_eq r) covered)) required) [
  | none ↦ ok tt
  | some name ↦ err (coverage_insufficient name)
]

abbrev pub check_created : ℤ → Option ℤ → Result SignatureError (Unit {0})
check_created now none = ok tt
check_created now (some created) =
    if ltb_ℤ max_signature_skew_seconds (abs64 (sub64 now created))
    then err (stale (sub64 now created))
    else ok tt

abbrev pub check_expires : ℤ → Option ℤ → Result SignatureError (Unit {0})
check_expires now none = ok tt
check_expires now (some expires) = if ltb_ℤ expires now then err expired else ok tt

abbrev pub check_algorithm : PublicKey → Option String → Result SignatureError (Unit {0})
check_algorithm key none = ok tt
check_algorithm key (some alg) =
    if str_eq alg (http_signature_name (algorithm key))
    then ok tt
    else err (algorithm_unsupported alg)

abbrev pub bytes_of : Crypto → Option String → Option (List ℕ)
bytes_of crypto none = none
bytes_of crypto (some value) = parse_byte_sequence crypto.decode_base64 value

abbrev pub judge_base : Crypto → PublicKey → String → List ℕ → String → Result SignatureError String
judge_base crypto key base signature keyid =
    if verify crypto key base signature then ok keyid else err verification_failed

module _ (crypto : Crypto) (keys : VerifyingKeyring) (components : MessageComponents) where
  -- The rest of `verify_one`, once the key is known.
  abbrev pub verify_with :
      String → Option String → SignatureParams → PublicKey → Result SignatureError String
  verify_with raw_params signature params key = and_then (check_algorithm key params.alg) (λ _.
      and_then (or_error missing (bytes_of crypto signature)) (λ bytes.
        and_then (signature_base components params.covered raw_params)
          (λ base. judge_base crypto key base bytes params.keyid)))

  unfoldable pub verify_one :
      String → Option String → List String → ℤ → Result SignatureError String
  verify_one raw_params signature required now =
      and_then (parse_signature_params raw_params) (λ params.
        and_then (check_coverage required params.covered) (λ _.
          and_then (check_created now params.created) (λ _.
            and_then (check_expires now params.expires) (λ _.
              and_then (or_error (key_not_found params.keyid) (lookup params.keyid keys))
                (λ key. verify_with raw_params signature params key)))))

  abbrev or_first : Option SignatureError → SignatureError → SignatureError
  or_first none e = e
  or_first (some first) e = first

  -- The loop over the signatures' inputs, with the first error so far.
  unfoldable pub verify_any :
      List (String × String)
      → List String
      → ℤ
      → Option SignatureError
      → List (String × String)
      → Result SignatureError String
  verify_any signatures required now first [] = err (or_first first missing)
  verify_any signatures required now first ((label, raw_params) ∷ inputs) =
      elim (verify_one raw_params (lookup label signatures) required now) [
        | ok kid ↦ ok kid
        | err e ↦ verify_any signatures required now (some (or_first first e)) inputs
      ]

  unfoldable pub verify_message : String → String → List String → ℤ → Result SignatureError String
  verify_message signature_input signature required now =
      and_then (parse_dictionary signature_input) (λ inputs.
        and_then (parse_dictionary signature) (λ signatures.
          if is_empty inputs || is_empty signatures
          then err missing
          else verify_any signatures required now none inputs))
