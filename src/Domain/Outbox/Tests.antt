-- ===== src/Domain/Outbox/Tests.antt =====
-- The theorems on the outbox at a concrete run.
use kafka_simulate_rule.Domain.Outbox.{
  pending, delivered, OutboxEffect, deliver, is_claimed, retry, claim, OutboxStatus,
}
use kafka_simulate_rule.Domain.Outbox.Laws.{
  start, retrying, claiming, delivering, Run-ledger, next, Kept, Run, count, perform,
}
use kafka_simulate_rule.Prelude.{refl, none, pos, String, ℕ, ℤ, ◌+◌, ◌≡◌}
use kafka_simulate_rule.Domain.Rule.{emit_effect}

abbrev outbox_effect : OutboxStatus → ℤ → ℕ → String → ℕ → OutboxEffect
outbox_effect status attempts available_at last_error updated_at = record {
  id = "f-1";
  execution_id = "x-1";
  tenant_id = "acme";
  destination = "payments";
  name = "charge";
  payload = "{}";
  effect_type = emit_effect;
  status = status;
  attempts = attempts;
  max_attempts = pos 5;
  available_at = available_at;
  claimed_by = "";
  claimed_at = none;
  claim_expires_at = none;
  last_error = last_error;
  created_at = 1000;
  updated_at = updated_at;
}

-- Claimed, put back after a failure, claimed again and delivered.
retried-Run :
    Run
      (outbox_effect pending (pos 0) 1000 "" 1000)
      2
      2
      (outbox_effect delivered (pos 1) 1012 "down" 1021)
unfolding perform claim retry deliver
retried-Run =
    next (delivering 1021)
      (next (claiming "w" 1020)
        (next (retrying 1011 (pos 1) (pos 1) "down") (next (claiming "w" 1010) start refl) refl)
        refl)
      refl

Run-ledger_example :
    (2 ≡ 2 + count (is_claimed delivered))
    × Kept
        (outbox_effect pending (pos 0) 1000 "" 1000)
        (outbox_effect delivered (pos 1) 1012 "down" 1021)
Run-ledger_example = Run-ledger refl retried-Run
