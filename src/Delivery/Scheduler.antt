-- ===== src/Delivery/Scheduler.antt =====
-- internal/runtime/scheduler/scheduler.go: one tick, which releases the scheduled events that are due. The
-- answers of the repository and of the publisher are those of this tick; what the scheduler asks of them
-- is its acts. Errors of the last calls are only logged.
pub mod Messages
pub mod Laws
mod Tests
use kafka_simulate_rule.Domain.Values.{Runtime}
use kafka_simulate_rule.Prelude.{
  ◌+◌, ltb_ℤ, str_eq, none, ◌++◌, if◌then◌else◌, [], some, map, ◌∷◌, ◌<>◌, ◌∷◌, pos, List,
  increment, ℤ, Option, String, ℕ,
}
use kafka_simulate_rule.Domain.Event.{EventEnvelope, Time, virtual_shard}
use kafka_simulate_rule.Domain.Errors.{wrap, error_text, message, GoError}
use kafka_simulate_rule.Domain.Result.{ok, err, Result}
use kafka_simulate_rule.Delivery.Backoff.{scheduled_retry_delay}

pub data ScheduledEventStatus : Type 0 where
  pending claimed released failed cancelled : ScheduledEventStatus

pub record ScheduledEvent : Type 0 where
  pub event_id : String
  pub tenant_id : String
  pub event_type : String
  pub partition_key : String
  pub workflow_id : String
  pub payload : String
  pub headers : Option (List (String × String))
  pub scheduled_at : Time
  pub status : ScheduledEventStatus
  pub retry_at : Option Time
  pub retry_count : ℤ
  pub last_error : String
  pub created_at : Time
  pub released_at : Option Time

pub data Act : Type 0 where
  publishing : String → ℕ → String → Act
  releasing : String → String → Time → Act
  rescheduling : String → String → Time → String → Act
  abandoning : String → String → String → Act

pub record Scheduler : Type 0 where
  pub num_shards : ℕ
  pub batch_size : ℤ
  pub now : Time
  pub get_due : Time → ℤ → Result (List ScheduledEvent)
  pub claim : List String → String → ℕ → Result (List ScheduledEvent)
  pub publish_to_shard : String → ℕ → String → Option GoError

abbrev pub max_scheduled_event_attempts : ℤ
max_scheduled_event_attempts = pos 8

-- `headers[k] = v`
abbrev pub set_header : String → String → List (String × String) → List (String × String)
set_header k v [] = (k, v) ∷ []
set_header k v (h ∷ hs) =
    let rest = set_header k v hs in if str_eq h.0 k then (k, v) ∷ hs else h ∷ rest

-- A nil map is made first.
abbrev pub headers_of : Option (List (String × String)) → List (String × String)
headers_of none = []
headers_of (some hs) = hs

module _ (go : Runtime) (s : Scheduler) where
  abbrev pub envelope_of : ScheduledEvent → String → EventEnvelope
  envelope_of evt key = record {
    id = evt.event_id;
    event_type = evt.event_type;
    tenant_id = evt.tenant_id;
    partition_key = evt.partition_key;
    workflow_id = evt.workflow_id;
    occurred_at = s.now;
    payload = evt.payload;
    headers = some (set_header "Idempotency-Key" key (headers_of evt.headers));
  }

  abbrev pub publish : ℕ → Option String → GoError → Option GoError × List Act
  publish shard none e = (some (wrap "marshal event: " e), [])
  publish shard (some body) e =
      (s.publish_to_shard "events" shard body, publishing "events" shard body ∷ [])

  unfoldable pub release_event : ScheduledEvent → String → Option GoError × List Act
  unfolding virtual_shard
  release_event evt key =
      let env = envelope_of evt key in
      publish (virtual_shard env s.num_shards) (go.marshal_event env) (message (go.event_error env))

  unfoldable pub handle_release_failure : ScheduledEvent → String → GoError → Act
  unfolding increment scheduled_retry_delay error_text
  handle_release_failure evt claimant e =
      let next_attempt = increment evt.retry_count in
      if ltb_ℤ next_attempt max_scheduled_event_attempts
      then rescheduling evt.event_id claimant (s.now + scheduled_retry_delay next_attempt)
          (error_text e)
      else abandoning evt.event_id claimant (error_text e)

  unfoldable pub mark_event_released : ScheduledEvent → String → Act
  mark_event_released evt claimant = releasing evt.event_id claimant s.now

  unfoldable pub after_release : ScheduledEvent → String → Option GoError → Act
  unfolding handle_release_failure mark_event_released
  after_release evt claimant none = mark_event_released evt claimant
  after_release evt claimant (some e) = handle_release_failure evt claimant e

  unfoldable pub process_claimed_event : ScheduledEvent → String → List Act
  unfolding release_event after_release
  process_claimed_event evt claimant =
      let (answer, acts) = release_event evt ("sched-" <> evt.event_id) in
      acts ++ after_release evt claimant answer ∷ []

  unfoldable pub process_claimed_events : List ScheduledEvent → String → List Act
  unfolding process_claimed_event
  process_claimed_events [] claimant = []
  process_claimed_events (evt ∷ evts) claimant =
      process_claimed_event evt claimant ++ process_claimed_events evts claimant

  abbrev pub scheduled_event_ids : List ScheduledEvent → List String
  scheduled_event_ids evts = map (λ (evt : ScheduledEvent). evt.event_id) evts

  unfoldable pub after_claim : String → Result (List ScheduledEvent) → List Act
  unfolding process_claimed_events
  after_claim claimant (err e) = []
  after_claim claimant (ok evts) = process_claimed_events evts claimant

  -- The claim lasts five minutes.
  unfoldable pub after_due : String → Result (List ScheduledEvent) → List Act
  unfolding after_claim
  after_due claimant (err e) = []
  after_due claimant (ok []) = []
  after_due claimant (ok (evt ∷ evts)) =
      after_claim claimant (s.claim (scheduled_event_ids (evt ∷ evts)) claimant 300000000000)

  -- `id` is the new ID of the claimant.
  unfoldable pub tick : String → List Act
  unfolding after_due
  tick id = after_due ("scheduler-" <> id) (s.get_due s.now s.batch_size)
