-- ===== src/Domain/Execution/Tests.antt =====
-- The theorems on executions at concrete calls.
use kafka_simulate_rule.Prelude.{◌∷◌, none, [], pos, List}
use kafka_simulate_rule.Domain.Execution.Laws.{failing, completing, Call}
use kafka_simulate_rule.Domain.Execution.{pending, Execution}

abbrev pending_execution : Execution
pending_execution = record {
  id = "x-1";
  event_id = "e-1";
  tenant_id = "acme";
  rule_set = "order.created";
  revision = pos 3;
  decision_hash = "";
  status = pending;
  error = "";
  trace_id = "";
  created_at = 1000;
  completed_at = none;
}

abbrev late_calls : List Call
late_calls = failing 1002 "late" ∷ completing 1003 ∷ []
