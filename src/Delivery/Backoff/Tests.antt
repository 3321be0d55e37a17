-- ===== src/Delivery/Backoff/Tests.antt =====
-- The theorems on the retry delays at concrete inputs.
use kafka_simulate_rule.Prelude.{◌/◌, ℕ}

abbrev half : ℕ → ℕ
half n = n / 2
