-- ===== src/Delivery/Scheduler/Messages.antt =====
-- The messages that a tick of internal/runtime/scheduler/scheduler.go sends, and the acts that settle its events.
use kafka_simulate_rule.Delivery.Scheduler.{
  set_header, headers_of, max_scheduled_event_attempts, mark_event_released, rescheduling,
  process_claimed_event, ScheduledEvent, publish, release_event, process_claimed_events, abandoning,
  handle_release_failure, releasing, after_release, publishing, Scheduler, Act,
}
use kafka_simulate_rule.Prelude.{
  map, append-nil, inr, ◌∙◌, refl, inl, ltb_ℤ, ◌<>◌, ap, none, Bool-cases, increment, false, [],
  if◌then◌else◌, some, ◌≡◌, ◌∷◌, ◌++◌, true, ℕ, Bool, String, Option, List,
}
use kafka_simulate_rule.Domain.Values.{Runtime}
use kafka_simulate_rule.Domain.Errors.{message, GoError}
use kafka_simulate_rule.Domain.Event.{EventEnvelope, virtual_shard}

-- The event that an act settles.
abbrev pub settled_event : Act → List String
settled_event (publishing subject shard body) = []
settled_event (releasing id claimant now) = id ∷ []
settled_event (rescheduling id claimant retry_at text) = id ∷ []
settled_event (abandoning id claimant text) = id ∷ []

abbrev pub settled_events : List Act → List String
settled_events [] = []
settled_events (a ∷ acts) = settled_event a ++ settled_events acts

abbrev pub is_released : Act → Bool
is_released (releasing id claimant now) = true
is_released _ = false

-- The events that are marked as released.
abbrev pub released_events : List Act → List String
released_events [] = []
released_events (a ∷ acts) =
    if is_released a then settled_event a ++ released_events acts else released_events acts

abbrev pub ids_of : List ScheduledEvent → List String
ids_of [] = []
ids_of (evt ∷ evts) = evt.event_id ∷ ids_of evts

pub ids_of-map :
    (evts : List ScheduledEvent) → map (λ (evt : ScheduledEvent). evt.event_id) evts ≡ ids_of evts
ids_of-map [] = refl
ids_of-map (evt ∷ evts) = ap (λ l. evt.event_id ∷ l) (ids_of-map evts)

abbrev pub is_message : Act → Bool
is_message (publishing subject shard body) = true
is_message _ = false

abbrev pub sent_messages : List Act → List Act
sent_messages [] = []
sent_messages (a ∷ acts) = if is_message a then a ∷ sent_messages acts else sent_messages acts

abbrev pub is_nil : Option GoError → Bool
is_nil none = true
is_nil (some e) = false

module _ (go : Runtime) (s : Scheduler) where
  -- The envelope that a scheduled event is to be sent in.
  abbrev pub announcement : ScheduledEvent → EventEnvelope
  announcement evt = record {
    id = evt.event_id;
    event_type = evt.event_type;
    tenant_id = evt.tenant_id;
    partition_key = evt.partition_key;
    workflow_id = evt.workflow_id;
    occurred_at = s.now;
    payload = evt.payload;
    headers =
        some (set_header "Idempotency-Key" ("sched-" <> evt.event_id) (headers_of evt.headers));
  }

  -- The shard of an announcement.
  abbrev pub shard_of : ScheduledEvent → ℕ
  shard_of evt = virtual_shard (announcement evt) s.num_shards

  -- Whether the broker takes an encoded announcement; one that has no encoding is not sent.
  abbrev pub is_taken : ℕ → Option String → Bool
  is_taken shard none = false
  is_taken shard (some body) = is_nil (s.publish_to_shard "events" shard body)

  abbrev pub sent_once : ℕ → Option String → List Act
  sent_once shard none = []
  sent_once shard (some body) = publishing "events" shard body ∷ []

  -- The events whose announcement the broker has taken.
  unfoldable pub published_events : List ScheduledEvent → List String
  published_events [] = []
  published_events (evt ∷ evts) =
      let rest = published_events evts in
      if is_taken (shard_of evt) (go.marshal_event (announcement evt))
      then evt.event_id ∷ rest
      else rest

  -- One message for each event that has an encoding.
  unfoldable pub announcements : List ScheduledEvent → List Act
  announcements [] = []
  announcements (evt ∷ evts) =
      sent_once (shard_of evt) (go.marshal_event (announcement evt)) ++ announcements evts

  sent-append : (xs ys : List Act) → sent_messages (xs ++ ys) ≡ sent_messages xs ++ sent_messages ys
  sent-append [] ys = refl
  sent-append (a ∷ xs) ys = elim (Bool-cases (is_message a)) [
    | inl r ↦ rw (r, sent-append xs ys) refl
    | inr r ↦ rw (r, sent-append xs ys) refl
  ]

  pub publish-is_taken :
      (shard : ℕ) (body : Option String) (e : GoError)
      → is_nil (publish go s shard body e).0 ≡ is_taken shard body
  publish-is_taken shard none e = refl
  publish-is_taken shard (some body) e = refl

  publish-sent_once :
      (shard : ℕ) (body : Option String) (e : GoError)
      → sent_messages (publish go s shard body e).1 ≡ sent_once shard body
  publish-sent_once shard none e = refl
  publish-sent_once shard (some body) e = refl

  failure-quiet :
      (evt : ScheduledEvent) (claimant : String) (e : GoError)
      → is_message (handle_release_failure go s evt claimant e) ≡ false
  unfolding handle_release_failure
  failure-quiet evt claimant e =
      elim (Bool-cases (ltb_ℤ (increment evt.retry_count) max_scheduled_event_attempts)) [
        | inl b ↦ rw b refl
        | inr b ↦ rw b refl
      ]

  after_release-quiet :
      (evt : ScheduledEvent) (claimant : String) (o : Option GoError)
      → is_message (after_release go s evt claimant o) ≡ false
  unfolding after_release mark_event_released
  after_release-quiet evt claimant none = refl
  after_release-quiet evt claimant (some e) = failure-quiet evt claimant e

  pub process-announcements :
      (evts : List ScheduledEvent) (claimant : String)
      → sent_messages (process_claimed_events go s evts claimant) ≡ announcements evts
  unfolding process_claimed_events process_claimed_event announcements release_event
  process-announcements [] claimant = refl
  process-announcements (evt ∷ evts) claimant =
      let body = go.marshal_event (announcement evt) in
      let (answer, acts) = release_event go s evt ("sched-" <> evt.event_id) in
      let act = after_release go s evt claimant answer in
      sent-append (acts ++ act ∷ []) (process_claimed_events go s evts claimant) ∙ (λ i.
        (sent-append acts (act ∷ [])
            ∙ rw (after_release-quiet evt claimant answer) (append-nil (sent_messages acts))
            ∙ publish-sent_once (shard_of evt) body (message (go.event_error (announcement evt))))
          i
        ++ process-announcements evts claimant i)
