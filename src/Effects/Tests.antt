-- ===== src/Effects/Tests.antt =====
-- The theorems on internal/services/effects/service.go at a concrete pass.
use kafka_simulate_rule.Effects.{
  Pass, reschedule, after_mark, after_save, give_up, settle, publish_one, publish_each,
  publish_claimed, Service, publish_batch,
}
use kafka_simulate_rule.Effects.Settlement.{
  publish_batch-settled, publish_batch-sent, sent, settled, stacked,
}
use kafka_simulate_rule.Prelude.{
  refl, ◌∷◌, [], some, ◌+◌, none, str_eq, ◌≤◌, if◌then◌else◌, ◌≡◌, pos, length, ℤ, true, Option,
  List, String,
}
use kafka_simulate_rule.Domain.Outbox.{claimed, OutboxEffect}
use kafka_simulate_rule.Domain.Rule.{emit_effect}
use kafka_simulate_rule.Domain.Errors.{effect_destination_down, sentinel, GoError}
use kafka_simulate_rule.Domain.Result.{ok}
use kafka_simulate_rule.Effects.Reasons.{publish_batch-IsReasoned, IsReasoned}

abbrev claimed_effect : String → ℤ → OutboxEffect
claimed_effect id attempts = record {
  id = id;
  execution_id = "x-1";
  tenant_id = "acme";
  destination = "payments";
  name = "charge";
  payload = "{}";
  effect_type = emit_effect;
  status = claimed;
  attempts = attempts;
  max_attempts = pos 5;
  available_at = 1000;
  claimed_by = "publisher";
  claimed_at = none;
  claim_expires_at = none;
  last_error = "";
  created_at = 1000;
  updated_at = 1000;
}

-- Three effects: one is delivered, one is tried again, one has no attempt left.
abbrev batch_of_three : List OutboxEffect
batch_of_three =
    claimed_effect "a" (pos 0) ∷ claimed_effect "b" (pos 0) ∷ claimed_effect "c" (pos 4) ∷ []

abbrev send_answer : String → Option GoError
send_answer id = if str_eq id "a" then none else some (sentinel effect_destination_down)

abbrev flaky : Service
flaky = record {
  has_outbox = true;
  has_sender = true;
  has_quarantine = true;
  claimant = "publisher";
  now = λ t. length t;
  new_id = λ t. "id";
  claim_pending = λ t n token ttl. ok batch_of_three;
  send = λ t ef key. send_answer ef.id;
  mark_delivered = λ t ids token. none;
  schedule_retry = λ t id token delay attempts text. none;
  quarantine_effect = λ t id token text. none;
  save = λ t entry. none;
  delete = λ t tenant id. none;
}

abbrev after_pass : Pass
unfolding publish_batch publish_claimed publish_each publish_one settle give_up after_save
    after_mark reschedule
after_pass = publish_batch flaky (pos 10) []

publish_batch-sent_example :
    (sent after_pass.1 ≡ ("c", "effect-c") ∷ ("b", "effect-b") ∷ ("a", "effect-a") ∷ [])
    × (length (settled flaky after_pass.1) ≤ 3)
    × (3 ≤ length (settled flaky after_pass.1) + length after_pass.0)
unfolding after_pass stacked settled sent
publish_batch-sent_example = publish_batch-sent flaky (pos 10) [] batch_of_three refl refl refl refl

publish_batch-settled_example :
    settled flaky after_pass.1
    ≡ ("c", "publisher-id") ∷ ("b", "publisher-id") ∷ ("a", "publisher-id") ∷ []
unfolding after_pass stacked settled publish_batch publish_claimed publish_each publish_one settle
    give_up after_save after_mark reschedule
publish_batch-settled_example =
    publish_batch-settled flaky (pos 10) [] batch_of_three refl refl refl refl refl

publish_batch-IsReasoned_example : IsReasoned flaky (publish_batch flaky (pos 10) []).1
publish_batch-IsReasoned_example = publish_batch-IsReasoned flaky (pos 10) [] tt
