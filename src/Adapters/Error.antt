-- ===== src/Adapters/Error.antt =====
-- crates/integration-adapters/src/error.rs
use commerce_orchestrator_ap.Prelude.{ℕ, String, Bool}

-- `reqwest::Error`, as far as the program asks it
pub record TransportError : Type 0 where
  pub is_connect : Bool
  pub is_timeout : Bool
  pub is_request : Bool
  pub message : String

pub data AdapterError : Type 0 where
  http : TransportError → AdapterError
  -- nanoseconds
  timeout : ℕ → AdapterError
  status : ℕ → String → AdapterError
  json circuit_open config : String → AdapterError
