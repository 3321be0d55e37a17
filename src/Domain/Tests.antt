-- ===== src/Domain/Tests.antt =====
-- The theorems on the envelope and the errors of internal/domain at concrete inputs.
use kafka_simulate_rule.Rules.Samples.{small_go}
use kafka_simulate_rule.Domain.Event.{EventEnvelope}
use kafka_simulate_rule.Prelude.{pos, ◌≡◌, none}
use kafka_simulate_rule.Domain.Identity.{compute_effect_id}
use kafka_simulate_rule.Domain.Identity.Laws.{compute_effect_id-ambiguous}

abbrev order_event : EventEnvelope
order_event = record {
  id = "e-1";
  event_type = "order.created";
  tenant_id = "acme";
  partition_key = "order-7";
  workflow_id = "";
  occurred_at = 1000;
  payload = "{}";
  headers = none;
}

compute_effect_id-ambiguous_example :
    compute_effect_id small_go "acme|eu" "e1" "orders" (pos 1) "big" 0
    ≡ compute_effect_id small_go "acme" "eu|e1" "orders" (pos 1) "big" 0
compute_effect_id-ambiguous_example =
    compute_effect_id-ambiguous small_go "acme" "eu" "e1" "orders" (pos 1) "big" 0
