-- ===== src/Adapters/Client/Delays.antt =====
-- How long the client waits between two attempts.
use commerce_orchestrator_ap.Prelude.{ℕ}

abbrev last : ℕ
last = 18446744073709551615
