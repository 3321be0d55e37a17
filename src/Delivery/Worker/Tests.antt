-- ===== src/Delivery/Worker/Tests.antt =====
-- The theorems on internal/application/worker_delivery.go at concrete deliveries.
use kafka_simulate_rule.Delivery.Worker.{Delivery}
use kafka_simulate_rule.Prelude.{none, ◌/◌, pos, some}

abbrev delivery : Delivery
delivery = record {
  retry_delay = pos 0;
  attempt = some 3;
  random = λ n. n / 2;
  source_hash = "hash";
  ack = none;
  nak = none;
  retry = λ delay. none;
  quarantine = λ class text. none;
  submit = λ token shard. none;
}
