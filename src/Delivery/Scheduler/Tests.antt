-- ===== src/Delivery/Scheduler/Tests.antt =====
-- The theorems on internal/runtime/scheduler/scheduler.go at a concrete tick.
use kafka_simulate_rule.Rules.Samples.{small_go}
use kafka_simulate_rule.Delivery.Scheduler.{tick, pending, ScheduledEvent, Scheduler}
use kafka_simulate_rule.Prelude.{
  refl, some, str_eq, ◌≡◌, if◌then◌else◌, [], none, ◌∷◌, pos, ℤ, List, String,
}
use kafka_simulate_rule.Delivery.Scheduler.Laws.{tick-settled}
use kafka_simulate_rule.Delivery.Scheduler.Messages.{
  sent_messages, announcements, released_events, settled_events, published_events,
}
use kafka_simulate_rule.Domain.Errors.{message}
use kafka_simulate_rule.Domain.Result.{ok}

abbrev reminder : String → ℤ → ScheduledEvent
reminder id retry_count = record {
  event_id = id;
  tenant_id = "acme";
  event_type = "reminder";
  partition_key = id;
  workflow_id = "";
  payload = "{}";
  headers = none;
  scheduled_at = 1000;
  status = pending;
  retry_at = none;
  retry_count = retry_count;
  last_error = "";
  created_at = 900;
  released_at = none;
}

abbrev due : List ScheduledEvent
due = reminder "a" (pos 0) ∷ reminder "b" (pos 7) ∷ []

abbrev clockwork : Scheduler
clockwork = record {
  num_shards = 16;
  batch_size = pos 100;
  now = 2000;
  get_due = λ now n. ok due;
  claim = λ ids claimant ttl. ok due;
  publish_to_shard =
      λ subject shard body. if str_eq body "a" then none else some (message "broker is down");
}

tick-settled_example :
    (sent_messages (tick small_go clockwork "1") ≡ announcements small_go clockwork due)
    × (settled_events (tick small_go clockwork "1") ≡ "a" ∷ "b" ∷ [])
    × (released_events (tick small_go clockwork "1") ≡ "a" ∷ [])
unfolding published_events
tick-settled_example =
    tick-settled small_go clockwork "1" (reminder "a" (pos 0)) (reminder "b" (pos 7) ∷ []) due refl
      refl
