-- ===== src/Examples/Signatures.antt =====
-- A signed message and a ring of two keys.
use commerce_orchestrator_ap.Prelude.{◌≡◌, refl, arith, String, some, [], ◌∷◌}
use commerce_orchestrator_ap.Prelude.Int.{pos, sub64, wrap64, ◌-ℤ◌}
use commerce_orchestrator_ap.Prelude.Texts.{
  codes, eq_codes, is_blank, trim, strip_prefix, split_char, concat,
}
use commerce_orchestrator_ap.Prelude.Parsing.{
  push_char, split_once, split_whitespace, strip_suffix_char, parse_i64,
}
use commerce_orchestrator_ap.Prelude.Eq.{string_eq}
use commerce_orchestrator_ap.Prelude.Dict.{lookup}
use commerce_orchestrator_ap.Runtime.Result.{ok}
use commerce_orchestrator_ap.Api.Signing.Fields.{
  and_then, parse_dictionary, scan_char, scan_mark, key_value, parse_signature_params, set_param,
  parse_byte_sequence,
}
use commerce_orchestrator_ap.Api.Signing.Messages.{
  verify_any, verify_one, http_signature_name, signature_base, verify, Crypto, MessageComponents,
  VerifyingKeyring, ed25519, p256, from_entries, verify_message,
}
use commerce_orchestrator_ap.Api.Signing.Authentic.{Authentic, verify_message-Authentic}

-- A cryptography whose signature is the key.
abbrev toy : Crypto
toy = record {
  decode_base64 = λ text. some (codes text);
  verify_ed25519 = λ key payload signature. eq_codes key signature;
  verify_p256 = λ key payload signature. eq_codes key signature;
  p256_from_slice = some;
}

abbrev ring : VerifyingKeyring
ring = ("old", ed25519 (codes "xx")) ∷ ("k", p256 (codes "YQ")) ∷ []

abbrev message : MessageComponents
message = ("@method", "POST") ∷ ("@path", "/cart") ∷ []

abbrev input : String
input = "sig1=(\"@method\" \"@path\");created=1000;keyid=\"k\";alg=\"ecdsa-p256-sha256\""

ring_built : from_entries ring ≡ ok ring
unfolding from_entries is_blank
ring_built = refl

message_accepted :
    verify_message toy ring message input "sig1=:YQ:" ("@path" ∷ []) (pos 1200) ≡ ok "k"
unfolding verify_message and_then parse_dictionary scan_char scan_mark trim push_char key_value
    split_once verify_any verify_one parse_signature_params strip_prefix split_whitespace
    strip_suffix_char split_char set_param parse_byte_sequence http_signature_name signature_base
    verify lookup sub64 wrap64 ◌-ℤ◌ concat parse_i64
message_accepted = refl

verify_message-Authentic_example :
    Authentic toy ring message input "sig1=:YQ:" ("@path" ∷ []) 1200 "k"
verify_message-Authentic_example =
    verify_message-Authentic toy ring ring message input "sig1=:YQ:" ("@path" ∷ []) 1200 "k"
      ring_built (omega arith) message_accepted
