-- ===== src/Events/Tests.antt =====
-- The theorems on internal/services/events/service.go over a small database in memory.
use kafka_simulate_rule.Events.{
  persist_execution_and_outbox, load_active_revision, after_dedup, after_insert, after_lookup,
  find_execution, deduplicate_event, decision_effects, entry_of, process_in_transaction,
  execution_of, process, subscriber_effects, RuleEvaluator, Repositories, RuleActivation,
}
use kafka_simulate_rule.Prelude.{
  refl, ◌&&◌, [], ◌++◌, str_eq, if◌then◌else◌, ◌≡◌, some, true, ◌∷◌, Option, none, pos, String,
  List,
}
use kafka_simulate_rule.Domain.Outbox.{committed, OutboxEffect, InboxEntry}
use kafka_simulate_rule.Domain.Execution.{Execution}
use kafka_simulate_rule.Rules.Samples.{evaluate-orders, order_event, orders, decision_at, small_go}
use kafka_simulate_rule.Domain.Result.{ok}
use kafka_simulate_rule.Events.Outcome.{process-Processed, Processed}
use kafka_simulate_rule.Rules.Evaluator.{evaluate}
use kafka_simulate_rule.Domain.Event.{validate}

record Db : Type 0 where
  entries : List InboxEntry
  executions : List Execution
  effects : List OutboxEffect

abbrev entry_in : List InboxEntry → String → String → Option InboxEntry
entry_in [] tenant event = none
entry_in (en ∷ ens) tenant event =
    let rest = entry_in ens tenant event in
    if str_eq en.tenant_id tenant && str_eq en.event_id event then some en else rest

abbrev execution_in : List Execution → String → Option Execution
execution_in [] id = none
execution_in (x ∷ xs) id = let rest = execution_in xs id in if str_eq x.id id then some x else rest

abbrev committed_entry : String → String → String → InboxEntry
committed_entry tenant event execution = record {
  tenant_id = tenant;
  event_id = event;
  status = committed;
  execution_id = execution;
  partition_key = "";
  rule_set = "";
  payload = "";
  batch_id = "";
  first_seen_at = 0;
  committed_at = some 0;
}

-- The mark of the row that was read, and no row otherwise.
abbrev marked_in : List InboxEntry → String → String → String → Option InboxEntry → List InboxEntry
marked_in ens tenant event execution none = ens
marked_in ens tenant event execution (some en) = committed_entry tenant event execution ∷ ens

-- A row that is there is kept.
abbrev saved_in : List Execution → Execution → Option Execution → List Execution
saved_in xs x none = x ∷ xs
saved_in xs x (some y) = xs

abbrev engine : RuleEvaluator
engine r e = evaluate small_go r e 9 []

abbrev activation : RuleActivation
activation = record {
  tenant_scope = "acme";
  rule_set = "order";
  revision = pos 1;
  version = pos 1;
  actor = "ops";
  activated_at = 1;
}

abbrev in_memory : Repositories Db
in_memory = record {
  begin = λ s. ok s;
  open_repositories = λ s. none;
  assert_held = λ s shard worker token. none;
  inbox_get = λ s tenant event. ok (entry_in s.entries tenant event);
  inbox_insert = λ s en. ok (true, record s { entries = en ∷ s.entries });
  inbox_mark_committed = λ s tenant event execution. ok (record s {
    entries = marked_in s.entries tenant event execution (entry_in s.entries tenant event);
  });
  executions_get = λ s id. ok (execution_in s.executions id);
  executions_save = λ s x.
      ok (record s { executions = saved_in s.executions x (execution_in s.executions x.id) });
  activations_get = λ s tenant rule_set. ok (some activation);
  rules_get_active = λ s tenant rule_set. ok (some orders);
  outbox_insert = λ s efs. ok (record s { effects = efs ++ s.effects });
  subscribers = some (λ s tenant event_type. ok ("billing" ∷ []));
  commit = λ s. ok s;
  clock = λ s. 5;
}

abbrev empty_db : Db
empty_db = record { entries = []; executions = []; effects = [] }

new_execution : Execution
unfolding execution_of
new_execution = execution_of small_go in_memory order_event orders (decision_at 9) 5

after_order : Db
unfolding new_execution subscriber_effects
after_order = record {
  entries =
      committed_entry "acme" "e1" new_execution.id ∷ entry_of small_go in_memory order_event 5 ∷ [];
  executions = new_execution ∷ [];
  effects =
      (decision_effects small_go in_memory order_event new_execution.id 5 (decision_at 9).effects
        ++ subscriber_effects small_go in_memory order_event new_execution.id 5 "e1"
            ("billing" ∷ []))
      ++ [];
}

processed :
    process small_go engine in_memory empty_db order_event (pos 1) 3 "w"
    ≡ ok (new_execution, after_order)
unfolding process process_in_transaction deduplicate_event find_execution after_lookup after_insert
    after_dedup load_active_revision persist_execution_and_outbox validate new_execution after_order
processed = rw (evaluate-orders 9) refl

process-Processed_example :
    Processed small_go engine in_memory empty_db order_event (pos 1) 3 "w" new_execution after_order
process-Processed_example =
    process-Processed small_go engine in_memory empty_db order_event (pos 1) 3 "w" new_execution
      after_order processed
