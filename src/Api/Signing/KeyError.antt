-- ===== src/Api/Signing/KeyError.antt =====
-- SigningKeyError of crates/orchestrator-api/src/signing.rs.
use commerce_orchestrator_ap.Prelude.{String}

pub data SigningKeyError : Type 0 where
  missing_kid malformed_signature verification_failed : SigningKeyError
  invalid_key_material : String → String → SigningKeyError
  duplicate_kid unknown_kid unsupported_algorithm invalid_jwks : String → SigningKeyError
