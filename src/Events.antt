-- ===== src/Events.antt =====
-- internal/services/events/service.go: one event in one transaction. A state of the transaction's view of
-- the database is passed along; the repositories are outside, and a write returns the next state.
pub mod Outcome
pub mod Again
mod Tests
use kafka_simulate_rule.Domain.Execution.{Execution, completed}
use kafka_simulate_rule.Domain.Outbox.{
  QuarantineEntry, OutboxEffect, pending, processing, InboxEntry,
}
use kafka_simulate_rule.Domain.Values.{Runtime}
use kafka_simulate_rule.Prelude.{
  ◌<>◌, ◌++◌, length, false, ltb, true, is_positive, map, none, if◌then◌else◌, pos, some, ℕ, Bool,
  List, Option, ℤ, String,
}
use kafka_simulate_rule.Domain.Rule.{
  service_event_effect, Effect, Decision, EffectType, RuleRevision,
}
use kafka_simulate_rule.Domain.Result.{
  wrapped, or_fail, check, err, ◌>>=◌, with_context, ok, Result,
}
use kafka_simulate_rule.Domain.Event.{Time, validate, EventEnvelope}
use kafka_simulate_rule.Domain.Identity.{
  sized, compute_source_hash, compute_effect_id, compute_execution_id,
}
use kafka_simulate_rule.Domain.Errors.{
  ErrorClass, class_text, rule_not_found, fencing_token_mismatch, rule_not_ready, inbox_duplicate,
  wrap, message, sentinel, GoError,
}

pub record RuleActivation : Type 0 where
  pub tenant_scope : String
  pub rule_set : String
  pub revision : ℤ
  pub version : ℤ
  pub actor : String
  pub activated_at : Time

-- The transaction manager and the repositories. `none` is a nil error, a nil pointer, or for
-- `subscribers` a nil repository; a subscriber is its ID. `clock` reads the time at a state.
pub record Repositories (S : Type 0) : Type 0 where
  pub begin : S → Result S
  pub open_repositories : S → Option GoError
  pub assert_held : S → ℕ → String → ℤ → Option GoError
  pub inbox_get : S → String → String → Result (Option InboxEntry)
  pub inbox_insert : S → InboxEntry → Result (Bool × S)
  pub inbox_mark_committed : S → String → String → String → Result S
  pub executions_get : S → String → Result (Option Execution)
  pub executions_save : S → Execution → Result S
  pub activations_get : S → String → String → Result (Option RuleActivation)
  pub rules_get_active : S → String → String → Result (Option RuleRevision)
  pub outbox_insert : S → List OutboxEffect → Result S
  pub subscribers : Option (S → String → String → Result (List String))
  pub commit : S → Result S
  pub clock : S → Time

module _ {S : Type 0} (go : Runtime) (repos : Repositories S) where
  open repos use {
    begin, open_repositories, assert_held, inbox_get, inbox_insert, inbox_mark_committed,
    executions_get, executions_save, activations_get, rules_get_active, outbox_insert, subscribers,
    commit, clock,
  }

  -- The execution that an entry of the inbox leads to.
  abbrev pub follow_entry : String → S → Option InboxEntry → Result (Option Execution)
  follow_entry text st none = ok none
  follow_entry text st (some entry) =
      with_context (wrap text) (executions_get st entry.execution_id)

  unfoldable pub find_execution : String → String → S → EventEnvelope → Result (Option Execution)
  find_execution inbox_text execution_text st e =
      with_context (wrap inbox_text) (inbox_get st e.tenant_id e.id)
      >>= follow_entry execution_text st

  abbrev pub entry_of : EventEnvelope → Time → InboxEntry
  entry_of e now = record {
    tenant_id = e.tenant_id;
    event_id = e.id;
    status = processing;
    execution_id = "";
    partition_key = e.partition_key;
    rule_set = e.event_type;
    payload = e.payload;
    batch_id = "";
    first_seen_at = now;
    committed_at = none;
  }

  -- Not inserted, and still no execution: a conflict.
  abbrev pub found_or_conflict : S → Option Execution → Result (Option Execution × S)
  found_or_conflict st none = err (sentinel inbox_duplicate)
  found_or_conflict st (some x) = ok (some x, st)

  unfoldable pub after_insert : EventEnvelope → Bool × S → Result (Option Execution × S)
  unfolding find_execution
  after_insert e (true, st) = ok (none, st)
  after_insert e (false, st) =
      find_execution "get inbox after conflict: " "get execution after conflict: " st e
      >>= found_or_conflict st

  unfoldable pub after_lookup : EventEnvelope → S → Option Execution → Result (Option Execution × S)
  unfolding after_insert
  after_lookup e st (some x) = ok (some x, st)
  after_lookup e st none =
      with_context (wrap "insert inbox: ") (inbox_insert st (entry_of e (clock st)))
      >>= after_insert e

  unfoldable pub deduplicate_event : S → EventEnvelope → Result (Option Execution × S)
  unfolding find_execution after_lookup
  deduplicate_event st e =
      find_execution "check inbox: " "get existing execution: " st e >>= after_lookup e st

  abbrev pub active_revision : S → EventEnvelope → Option RuleActivation → Result RuleRevision
  active_revision st e none = err (sentinel rule_not_ready)
  active_revision st e (some activation) =
      with_context (wrap "get active revision: ") (rules_get_active st e.tenant_id e.event_type)
      >>= λ revision. or_fail revision (sentinel rule_not_found)

  unfoldable pub load_active_revision : S → EventEnvelope → Result RuleRevision
  load_active_revision st e =
      with_context (wrap "get activation: ") (activations_get st e.tenant_id e.event_type)
      >>= active_revision st e

  unfoldable pub execution_of : EventEnvelope → RuleRevision → Decision → Time → Execution
  unfolding compute_execution_id
  execution_of e revision decision now = record {
    id = compute_execution_id go e.tenant_id e.id e.event_type revision.revision;
    event_id = e.id;
    tenant_id = e.tenant_id;
    rule_set = e.event_type;
    revision = revision.revision;
    decision_hash = decision.hash;
    status = completed;
    error = "";
    trace_id = "";
    created_at = now;
    completed_at = none;
  }

  -- An effect that is to be sent at once, in at most five attempts.
  abbrev pub pending_effect :
      String → String → String → String → String → String → EffectType → Time → OutboxEffect
  pending_effect id execution_id tenant_id destination name payload effect_type now = record {
    id = id;
    execution_id = execution_id;
    tenant_id = tenant_id;
    destination = destination;
    name = name;
    payload = payload;
    effect_type = effect_type;
    status = pending;
    attempts = pos 0;
    max_attempts = pos 5;
    available_at = now;
    claimed_by = "";
    claimed_at = none;
    claim_expires_at = none;
    last_error = "";
    created_at = now;
    updated_at = now;
  }

  abbrev pub decision_effects : EventEnvelope → String → Time → List Effect → List OutboxEffect
  decision_effects e id now efs =
      map
        (λ (ef : Effect).
          pending_effect ef.id id e.tenant_id ef.destination ef.name ef.payload ef.effect_type now)
        efs

  unfoldable pub subscriber_effects :
      EventEnvelope → String → Time → String → List String → List OutboxEffect
  unfolding compute_effect_id
  subscriber_effects e id now payload ids =
      map
        (λ (sub : String).
          pending_effect
            (compute_effect_id go e.tenant_id e.id "service-subscription" (pos 1) sub 0) id
            e.tenant_id sub e.event_type payload service_event_effect now)
        ids

  abbrev pub list_subscribers :
      Option (S → String → String → Result (List String)) → S → EventEnvelope → Result (List String)
  list_subscribers none st e = err (message "tenant domain service repository is not configured")
  list_subscribers (some list) st e =
      with_context (wrap "get tenant domain subscribers: ") (list st e.tenant_id e.event_type)

  abbrev pub too_many : EventEnvelope → List String → Option GoError
  too_many e subs =
      if ltb 100 (length subs)
      then some (
          message ("event " <> (go.quote e.event_type <> " exceeds the 100-service fan-out limit")))
      else none

  unfoldable pub persist_execution_and_outbox :
      S → EventEnvelope → RuleRevision → Decision → Result (Execution × S)
  unfolding execution_of subscriber_effects
  persist_execution_and_outbox st e revision decision =
      let now = clock st in
      let x = execution_of e revision decision now in
      with_context (wrap "save execution: ") (executions_save st x) >>= λ st1.
      list_subscribers subscribers st1 e >>= λ subs. check (too_many e subs) (
        or_fail (go.marshal_event e)
          (wrap "marshal subscribed event: " (message (go.event_error e)))
        >>= λ payload.
            with_context (wrap "insert outbox: ") (
              outbox_insert st1 (
                decision_effects e x.id now decision.effects
                ++ subscriber_effects e x.id now payload subs))
            >>= λ st2.
                with_context (wrap "mark inbox committed: ")
                  (inbox_mark_committed st2 e.tenant_id e.id x.id)
                >>= λ st3. ok (x, st3))

-- An evaluator takes a revision and an event; the facts that it gets are nil.
abbrev pub RuleEvaluator : Type 0
RuleEvaluator = RuleRevision → EventEnvelope → Result Decision

module _ {S : Type 0} (go : Runtime) (evaluator : RuleEvaluator) (repos : Repositories S) where
  -- An event that was processed before leads to its execution, and nothing is committed; any other is
  -- evaluated, recorded and committed.
  unfoldable pub after_dedup : S → EventEnvelope → Option Execution × S → Result (Execution × S)
  unfolding load_active_revision persist_execution_and_outbox
  after_dedup before e (some x, st) = ok (x, before)
  after_dedup before e (none, st) = load_active_revision go repos st e >>= λ revision.
      with_context (wrap "evaluate: ") (evaluator revision e) >>= λ decision.
      persist_execution_and_outbox go repos st e revision decision >>= λ persisted.
      with_context (wrap "commit tx: ") (repos.commit persisted.1) >>= λ committed.
      ok (persisted.0, committed)

  -- The result, and the database as the transaction leaves it. What is not committed is rolled back: on
  -- an error the database is the one before.
  unfoldable pub process_in_transaction :
      S → EventEnvelope → ℤ → ℕ → String → Result (Execution × S)
  unfolding deduplicate_event after_dedup
  process_in_transaction before e token shard worker_id =
      with_context (wrap "begin tx: ") (repos.begin before) >>= λ st.
      check (wrapped "create transaction repositories: " (repos.open_repositories st)) (
        check
          (wrapped "fencing token validation failed: " (repos.assert_held st shard worker_id token))
          (deduplicate_event go repos st e >>= after_dedup before e))

  unfoldable pub process : S → EventEnvelope → ℤ → ℕ → String → Result (Execution × S)
  unfolding validate process_in_transaction
  process before e token shard worker_id = check (validate e) (
      if is_positive token
      then process_in_transaction before e token shard worker_id
      else err (sentinel fencing_token_mismatch))

-- `QuarantineEvent`; `save` is that of the quarantine repository.
unfoldable pub quarantine_event :
    Runtime
    → (QuarantineEntry → Option GoError)
    → Time
    → String
    → String
    → String
    → ErrorClass
    → String
    → Option GoError
unfolding class_text compute_source_hash
quarantine_event go save now source_id event_id tenant_id class err_msg =
    let raw_id =
      "event-quarantine|"
      <> (sized go tenant_id
          <> ("|"
              <> (sized go source_id
                  <> ("|" <> (sized go event_id <> ("|" <> class_text class)))))) in
    save (record {
      id = compute_source_hash go raw_id;
      source_type = "event";
      source_id = source_id;
      error_class = class_text class;
      payload_ref = "jetstream:flowrule";
      event_id = event_id;
      tenant_id = tenant_id;
      error = err_msg;
      created_at = now;
    })
