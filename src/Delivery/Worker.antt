-- ===== src/Delivery/Worker.antt =====
-- internal/application/worker_delivery.go: what the worker does with a delivery of the broker. The answers of
-- the broker and of the quarantine are those of this delivery; a step returns its error and its acts.
pub mod Laws
mod Tests
use kafka_simulate_rule.Domain.Event.{EventEnvelope, virtual_shard}
use kafka_simulate_rule.Prelude.{
  ◌<>◌, [], none, if◌then◌else◌, ◌∷◌, Bool, some, String, pos, List, Option, ℕ, ℤ,
}
use kafka_simulate_rule.Domain.Errors.{
  wrap, ErrorClass, message, wrap_two, validation, GoError, error_text, is_permanent,
  classify_error,
}
use kafka_simulate_rule.Delivery.Backoff.{retry_delay_for_delivery}
use kafka_simulate_rule.Domain.Result.{ok, err, wrapped, Result}
use kafka_simulate_rule.Domain.Execution.{Execution}

pub data Act : Type 0 where
  acking naking : Act
  retrying : ℕ → Act
  quarantining : String → String → String → ErrorClass → String → Act
  submitting : ℤ → ℕ → Act

-- `attempt` is the metadata of the delivery, if it has any; `random` is `rand.Int64N`.
pub record Delivery : Type 0 where
  pub retry_delay : ℤ
  pub attempt : Option ℕ
  pub random : ℕ → ℕ
  pub source_hash : String
  pub ack : Option GoError
  pub nak : Option GoError
  pub retry : ℕ → Option GoError
  pub quarantine : ErrorClass → String → Option GoError
  pub submit : ℤ → ℕ → Option GoError

abbrev pub Step : Type 0
Step = Option GoError × List Act

-- `errors.Join` drops nil errors.
abbrev pub join : Option GoError → Option GoError → Option GoError
join none b = b
join (some a) none = some a
join (some a) (some b) = some (wrap_two "" a b)

unfoldable pub delay_of : Delivery → ℕ
unfolding retry_delay_for_delivery
delay_of d = retry_delay_for_delivery d.random d.retry_delay d.attempt

module _ (d : Delivery) where
  -- What follows the answer of the quarantine.
  unfoldable pub after_quarantine : EventEnvelope → Act → Option GoError → Step
  unfolding delay_of
  after_quarantine env act (some q) = (
    join (some (wrap ("quarantine permanent event " <> (env.id <> ": ")) q)) (d.retry (delay_of d)),
    act ∷ retrying (delay_of d) ∷ [],
  )
  after_quarantine env act none =
      (wrapped ("ack quarantined event " <> (env.id <> ": ")) d.ack, act ∷ acking ∷ [])

  unfoldable pub quarantine_permanent_event : EventEnvelope → GoError → Step
  unfolding after_quarantine classify_error error_text
  quarantine_permanent_event env e =
      let class = classify_error (some e) in
      after_quarantine env (quarantining env.id env.id env.tenant_id class (error_text e))
        (d.quarantine class (error_text e))

  abbrev pub retry_event : EventEnvelope → GoError → Option GoError → Option GoError
  retry_event env e none = some e
  retry_event env e (some r) =
      join (some (wrap ("process event " <> (env.id <> ": ")) e))
        (some (wrap ("retry event " <> (env.id <> ": ")) r))

  unfoldable pub handle_event_processing_failure : EventEnvelope → GoError → Step
  unfolding quarantine_permanent_event delay_of is_permanent
  handle_event_processing_failure env e =
      if is_permanent (some e)
      then quarantine_permanent_event env e
      else (retry_event env e (d.retry (delay_of d)), retrying (delay_of d) ∷ [])

  unfoldable pub settle_event_result : EventEnvelope → Option GoError → Step
  unfolding handle_event_processing_failure
  settle_event_result env none = (wrapped ("ack event " <> (env.id <> ": ")) d.ack, acking ∷ [])
  settle_event_result env (some e) = handle_event_processing_failure env e

  -- The error of the processing: a nil execution without an error is one too.
  abbrev pub process_error : Result (Option Execution) → Option GoError
  process_error (err e) = some e
  process_error (ok none) =
      some (message "event processor returned a nil execution without an error")
  process_error (ok (some x)) = none

  -- `none` is a nil envelope.
  unfoldable pub process_delivery : Option EventEnvelope → Result (Option Execution) → Step
  unfolding settle_event_result
  process_delivery none processed = (some (message "process delivery: event envelope is nil"), [])
  process_delivery (some env) processed = settle_event_result env (process_error processed)

  unfoldable pub after_invalid : Act → Option GoError → List Act
  unfolding delay_of
  after_invalid act (some q) = act ∷ retrying (delay_of d) ∷ []
  after_invalid act none = act ∷ acking ∷ []

  unfoldable pub quarantine_invalid_delivery : List Act
  unfolding after_invalid
  quarantine_invalid_delivery =
      let text : String = "invalid event envelope JSON" in
      after_invalid (quarantining d.source_hash "" "" validation text)
        (d.quarantine validation text)

  -- A shard with no token is submitted under token 0.
  abbrev pub token_or_zero : Option ℤ → ℤ
  token_or_zero none = pos 0
  token_or_zero (some token) = token

  unfoldable pub after_submit : ℤ → ℕ → Option GoError → Step
  after_submit token vshard (some e) = (some e, submitting token vshard ∷ naking ∷ [])
  after_submit token vshard none = (none, submitting token vshard ∷ [])

  unfoldable pub submit_owned_delivery : Option ℤ → ℕ → Step
  unfolding after_submit
  submit_owned_delivery token vshard =
      let t = token_or_zero token in after_submit t vshard (d.submit t vshard)

  -- `parsed` is `delivery.Event()`; `owner` and `token` are what the shard service says of a shard.
  unfoldable pub process_single_delivery :
      Result (Option EventEnvelope) → ℕ → (ℕ → Bool) → (ℕ → Option ℤ) → Step
  unfolding quarantine_invalid_delivery submit_owned_delivery virtual_shard
  process_single_delivery (err e) num_shards owner token = (none, quarantine_invalid_delivery)
  process_single_delivery (ok none) num_shards owner token = (none, quarantine_invalid_delivery)
  process_single_delivery (ok (some env)) num_shards owner token =
      let vshard = virtual_shard env num_shards in
      if owner vshard then submit_owned_delivery (token vshard) vshard else (none, naking ∷ [])
