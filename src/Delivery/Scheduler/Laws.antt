-- ===== src/Delivery/Scheduler/Laws.antt =====
-- The ticks of internal/runtime/scheduler/scheduler.go.
use kafka_simulate_rule.Delivery.Scheduler.Messages.{
  settled_event, settled_events, is_released, released_events, ids_of, ids_of-map, sent_messages,
  is_nil, announcement, shard_of, published_events, announcements, publish-is_taken,
  process-announcements,
}
use kafka_simulate_rule.Delivery.Scheduler.{
  envelope_of, max_scheduled_event_attempts, scheduled_event_ids, after_claim, mark_event_released,
  rescheduling, after_due, process_claimed_event, ScheduledEvent, publish, release_event,
  process_claimed_events, abandoning, handle_release_failure, tick, after_release, Scheduler, Act,
}
use kafka_simulate_rule.Prelude.{
  ◌-◌, arith, suc, ltb, ◌≤◌, ◌+◌, leb, append_assoc, inr, sym, ◌<◌, pos, ◌∙◌, refl, inl, ltb_ℤ,
  ◌<>◌, ap, none, Bool-cases, increment, false, [], if◌then◌else◌, some, ◌≡◌, ◌∷◌, ◌++◌, true, ℕ,
  Bool, String, Option, List,
}
use kafka_simulate_rule.Domain.Values.{Runtime}
use kafka_simulate_rule.Domain.Errors.{message, GoError}
use kafka_simulate_rule.Domain.Event.{virtual_shard, Time}
use kafka_simulate_rule.Delivery.Backoff.{second, minute, scheduled_retry_delay}
use kafka_simulate_rule.Domain.Result.{ok}
use kafka_simulate_rule.Delivery.Backoff.Laws.{doubled-ge, backoff_duration-doubled}

module _ (go : Runtime) (s : Scheduler) where
  settled-append :
      (xs ys : List Act) → settled_events (xs ++ ys) ≡ settled_events xs ++ settled_events ys
  settled-append [] ys = refl
  settled-append (a ∷ xs) ys =
      ap (λ zs. settled_event a ++ zs) (settled-append xs ys)
      ∙ sym (append_assoc (settled_event a) (settled_events xs) (settled_events ys))

  released-append :
      (xs ys : List Act) → released_events (xs ++ ys) ≡ released_events xs ++ released_events ys
  released-append [] ys = refl
  released-append (a ∷ xs) ys = elim (Bool-cases (is_released a)) [
    | inl r ↦
        rw (r, released-append xs ys)
          (sym (append_assoc (settled_event a) (released_events xs) (released_events ys)))
    | inr r ↦ rw (r, released-append xs ys) refl
  ]

  alone :
      (acts : List Act) (act : Act) (id : String)
      → settled_events acts ≡ []
      → settled_event act ≡ id ∷ []
      → settled_events (acts ++ act ∷ []) ≡ id ∷ []
  alone acts act id quiet one = settled-append acts (act ∷ []) ∙ rw (quiet, one) refl

  alone_released :
      (acts : List Act) (act : Act) (id : String) (test : Bool)
      → released_events acts ≡ []
      → is_released act ≡ test
      → settled_event act ≡ id ∷ []
      → released_events (acts ++ act ∷ []) ≡ (if test then id ∷ [] else [])
  alone_released acts act id test quiet marked one =
      released-append acts (act ∷ []) ∙ rw (quiet, marked, one) refl

  head_if :
      (test : Bool) (id : String) {xs ys : List String}
      → xs ≡ ys
      → (if test then id ∷ [] else []) ++ xs ≡ (if test then id ∷ ys else ys)
  head_if true id h = ap (λ zs. id ∷ zs) h
  head_if false id h = h

  publish-silent :
      (shard : ℕ) (body : Option String) (e : GoError)
      → (settled_events (publish go s shard body e).1 ≡ [])
        × (released_events (publish go s shard body e).1 ≡ [])
  publish-silent shard none e = (refl, refl)
  publish-silent shard (some body) e = (refl, refl)

  failure-settled :
      (evt : ScheduledEvent) (claimant : String) (e : GoError)
      → (settled_event (handle_release_failure go s evt claimant e) ≡ evt.event_id ∷ [])
        × (is_released (handle_release_failure go s evt claimant e) ≡ false)
  unfolding handle_release_failure
  failure-settled evt claimant e =
      elim (Bool-cases (ltb_ℤ (increment evt.retry_count) max_scheduled_event_attempts)) [
        | inl b ↦ rw b (refl, refl)
        | inr b ↦ rw b (refl, refl)
      ]

  after_release-settled :
      (evt : ScheduledEvent) (claimant : String) (o : Option GoError)
      → (settled_event (after_release go s evt claimant o) ≡ evt.event_id ∷ [])
        × (is_released (after_release go s evt claimant o) ≡ is_nil o)
  unfolding after_release mark_event_released
  after_release-settled evt claimant none = (refl, refl)
  after_release-settled evt claimant (some e) = failure-settled evt claimant e

  process-settled :
      (evts : List ScheduledEvent) (claimant : String)
      → (settled_events (process_claimed_events go s evts claimant) ≡ scheduled_event_ids go s evts)
        × (released_events (process_claimed_events go s evts claimant) ≡ published_events go s evts)
  unfolding process_claimed_events process_claimed_event published_events release_event
  process-settled [] claimant = (refl, refl)
  process-settled (evt ∷ evts) claimant =
      let key = "sched-" <> evt.event_id in
      let (answer, acts) = release_event go s evt key in
      let act = after_release go s evt claimant answer in
      let (quiet, unreleased) =
        publish-silent (virtual_shard (envelope_of go s evt key) s.num_shards)
          (go.marshal_event (envelope_of go s evt key))
          (message (go.event_error (envelope_of go s evt key))) in
      let (one, marked) = after_release-settled evt claimant answer in
      let (ids, published) = process-settled evts claimant in
      (
        settled-append (acts ++ act ∷ []) _
            ∙ ap (λ xs. xs ++ settled_events (process_claimed_events go s evts claimant))
                (alone acts act evt.event_id quiet one)
            ∙ ap (λ xs. evt.event_id ∷ xs) ids,
        released-append (acts ++ act ∷ []) _
            ∙ ap (λ xs. xs ++ released_events (process_claimed_events go s evts claimant))
                (alone_released acts act evt.event_id (is_nil answer) unreleased marked one)
            ∙ head_if (is_nil answer) evt.event_id published
            ∙ ap
                (λ b.
                  if b
                  then evt.event_id ∷ published_events go s evts
                  else published_events go s evts)
                (publish-is_taken go s (shard_of go s evt)
                  (go.marshal_event (announcement go s evt))
                  (message (go.event_error (announcement go s evt)))),
      )

  -- A tick sends the announcement of each event that it has claimed and that has an encoding to its shard, once
  -- and in the order of the claim. It settles each of these events exactly once in this order: it marks an event
  -- as released exactly when the broker has taken the announcement, and puts it back or marks it as failed
  -- otherwise.
  pub tick-settled :
      (id : String) (evt : ScheduledEvent) (evts taken : List ScheduledEvent)
      → s.get_due s.now s.batch_size ≡ ok (evt ∷ evts)
      → s.claim (ids_of (evt ∷ evts)) ("scheduler-" <> id) 300000000000 ≡ ok taken
      → (sent_messages (tick go s id) ≡ announcements go s taken)
        × (settled_events (tick go s id) ≡ ids_of taken)
        × (released_events (tick go s id) ≡ published_events go s taken)
  unfolding tick after_due after_claim
  tick-settled id evt evts taken d c =
      let settled = process-settled taken ("scheduler-" <> id) in
      rw (d, ap (λ l. s.claim l ("scheduler-" <> id) 300000000000) (ids_of-map (evt ∷ evts)) ∙ c)
        (
          process-announcements go s taken ("scheduler-" <> id),
          settled.0 ∙ ids_of-map taken,
          settled.1,
        )

  abbrev pub is_final : Act → Bool
  is_final (abandoning id claimant text) = true
  is_final _ = false

  -- The time of the next attempt, or now.
  abbrev pub next_time : Act → Time
  next_time (rescheduling id claimant retry_at text) = retry_at
  next_time _ = s.now

  retry_delay-bounds :
      (m : ℕ)
      → 1 ≤ m
      → (second ≤ scheduled_retry_delay (pos m)) × (scheduled_retry_delay (pos m) ≤ minute)
  retry_delay-bounds m h =
      let (b, same) = backoff_duration-doubled m h in
      let d = doubled-ge (m - 1) second in (omega (arith, b, same, d), omega (arith, b, same, d))

  next_count : (n : ℕ) → n < 9223372036854775807 → increment (pos n) ≡ pos (suc n)
  unfolding increment
  next_count n l = ground arith

  -- An event that fails for the `n + 1`st time is marked as failed exactly from the eighth failure on, and is
  -- tried again within a minute before that.
  pub handle_release_failure-attempts :
      (evt : ScheduledEvent) (claimant : String) (e : GoError) (n : ℕ)
      → evt.retry_count ≡ pos n
      → n < 9223372036854775807
      → (is_final (handle_release_failure go s evt claimant e) ≡ leb 8 (n + 1))
        × (next_time (handle_release_failure go s evt claimant e) ≤ s.now + minute)
        × (ltb s.now (next_time (handle_release_failure go s evt claimant e)) ≡ ltb (n + 1) 8)
  unfolding handle_release_failure
  handle_release_failure-attempts evt claimant e n h l =
      rw (h, next_count n l) (ground (arith, retry_delay-bounds (suc n) (omega arith)))
