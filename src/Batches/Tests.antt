-- ===== src/Batches/Tests.antt =====
-- A batch of two events (internal/services/batches/service.go).
use mathlib.Core.List.Perm
use kafka_simulate_rule.Domain.Execution.{ExecutionStatus}
use kafka_simulate_rule.Batches.{
  get_run_call, add_entry, group_from, insert_entry, sort_entries, list_by_ids_call, BatchGroupKey,
  accumulate, group_inbox_entries, compute_batch_id, Service,
}
use kafka_simulate_rule.Batches.Protocol.{Protocol}
use kafka_simulate_rule.Batches.Grouping.{
  group_inbox_entries-members, entries_of, members_of, AllNonempty, HasDistinctKeys,
}
use kafka_simulate_rule.Prelude.{
  ◌↔◌, refl, none, Perm, some, ◌∷◌, [], true, pos, ℕ, ◌≡◌, All, List, String,
}
use kafka_simulate_rule.Batches.Requests.{
  process_ready_groups, create_batch, load_unbatched_entries, after_list, validate_unique_from,
  tick_in, validate_unique_event_ids, tick, validate_manual_batch_request,
}
use kafka_simulate_rule.Batches.Processing.{
  owns, after_process, process_held, process_under, process_batch_envelope, complete,
  build_batch_envelope, process_new, after_existing, build_batch_input, limit_batch_members, owned,
  ready, process_group, process_input,
}
use kafka_simulate_rule.Domain.Execution.{Execution}
use kafka_simulate_rule.Rules.Samples.{small_go}
use kafka_simulate_rule.Domain.Outbox.{committed, InboxEntry}
use kafka_simulate_rule.Batches.Selection.{InScope}
use kafka_simulate_rule.Batches.Formed.{create_batch-forms, Willing, calls_of, ids_of}
use kafka_simulate_rule.Batches.Identity.{compute_batch_id-perm}
use kafka_simulate_rule.Batches.Guarantees.{requests-Protocol}
use kafka_simulate_rule.Domain.Result.{ok}
use kafka_simulate_rule.Batches.Manual.{validate_manual_batch_request-IsServable, IsServable}
use kafka_simulate_rule.Domain.Event.{bytes, shard_hash, virtual_shard}

abbrev entry : String → ℕ → InboxEntry
entry id seen = record {
  tenant_id = "shop";
  event_id = id;
  status = committed;
  execution_id = "x";
  partition_key = "p";
  rule_set = "orders";
  payload = "{}";
  batch_id = "";
  first_seen_at = seen;
  committed_at = some seen;
}

abbrev execution : Execution
execution = record {
  id = "x-1";
  event_id = "b";
  tenant_id = "shop";
  rule_set = "orders.batch";
  revision = pos 1;
  decision_hash = "d";
  status = ExecutionStatus.completed;
  error = "";
  trace_id = "";
  created_at = 50;
  completed_at = some 50;
}

abbrev listed_entries : List InboxEntry
listed_entries = entry "b" 20 ∷ entry "a" 10 ∷ []

abbrev service : Service
service = record {
  config = record { mode = accumulate; max_batch = pos 2; window = pos 0 };
  has_events = true;
  leases =
      some (record { is_owner = λ t shard. true; get_fencing_token = λ t shard. some (pos 3) });
  worker_id = "w";
  num_shards = 16;
  now = λ t. 50;
  list_unbatched = λ t limit. ok (record (entry "c" 5) { rule_set = "" } ∷ listed_entries);
  list_unbatched_by_ids = λ t tenant_id partition_key rule_set ids. ok listed_entries;
  get_run = λ t id. ok none;
  process = λ t e token shard worker. ok (some execution);
  complete_batch = λ t run ids. none;
  marshal = λ d. ok "{}";
}

-- One batch, oldest event first; the entry without a rule set is left out.
tick-one : (tick small_go service []).0 ≡ (1, none)
unfolding tick tick_in after_list load_unbatched_entries process_ready_groups process_group ready
    owned sort_entries insert_entry process_input limit_batch_members build_batch_input
    after_existing process_new build_batch_envelope complete process_batch_envelope process_under
    process_held after_process group_inbox_entries group_from add_entry owns virtual_shard
    shard_hash bytes
tick-one = refl

requests-Protocol_example :
    Protocol small_go service [] (tick small_go service []).1
    × Protocol small_go service []
        (create_batch small_go service "shop" "p" "orders" ("a" ∷ "b" ∷ []) []).1
requests-Protocol_example =
    requests-Protocol small_go service [] "shop" "p" "orders" ("a" ∷ "b" ∷ [])

compute_batch_id-perm_example :
    compute_batch_id small_go "shop" "p" "orders" ("b" ∷ "a" ∷ [])
    ≡ compute_batch_id small_go "shop" "p" "orders" ("a" ∷ "b" ∷ [])
compute_batch_id-perm_example =
    compute_batch_id-perm small_go "shop" "p" "orders" ("b" ∷ "a" ∷ []) ("a" ∷ "b" ∷ [])
      (Perm.swap "a" "b" [])

group_inbox_entries-members_example :
    HasDistinctKeys (group_inbox_entries listed_entries)
    × AllNonempty (group_inbox_entries listed_entries)
    × ((key : BatchGroupKey)
        → members_of key (group_inbox_entries listed_entries) ≡ entries_of key listed_entries)
group_inbox_entries-members_example = group_inbox_entries-members listed_entries

validate_manual_batch_request-IsServable_example :
    (validate_manual_batch_request small_go service "shop" "p" "orders" ("a" ∷ "a" ∷ []) ≡ none)
    ↔ IsServable service "shop" "p" "orders" ("a" ∷ "a" ∷ [])
validate_manual_batch_request-IsServable_example =
    validate_manual_batch_request-IsServable small_go service "shop" "p" "orders" ("a" ∷ "a" ∷ [])

accepted :
    validate_manual_batch_request small_go service "shop" "p" "orders" ("a" ∷ "b" ∷ []) ≡ none
unfolding validate_manual_batch_request validate_unique_event_ids validate_unique_from
accepted = refl

in_scope : All (InScope "shop" "p" "orders") listed_entries
in_scope = (
  record { tenant = refl; partition = refl; rules = refl },
  (record { tenant = refl; partition = refl; rules = refl }, tt),
)

abbrev requested_id : String
requested_id = compute_batch_id small_go "shop" "p" "orders" ("a" ∷ "b" ∷ [])

willing :
    Willing service
      (list_by_ids_call "shop" "p" "orders" ("a" ∷ "b" ∷ []) ∷ [])
      requested_id
      (entry "a" 10)
      (entry "b" 20 ∷ [])
willing = record {
  leases = record { is_owner = λ t shard. true; get_fencing_token = λ t shard. some (pos 3) };
  token = pos 3;
  payload = "{}";
  execution = execution;
  new = refl;
  encoded = refl;
  provided = refl;
  named = refl;
  held = refl;
  fenced = refl;
  positive = refl;
  processed = refl;
  completes = refl;
}

create_batch-forms_example :
    Perm (ids_of ((entry "a" 10) ∷ (entry "b" 20) ∷ [])) ("a" ∷ "b" ∷ [])
    × (create_batch small_go service "shop" "p" "orders" ("a" ∷ "b" ∷ []) [] ≡ (
      ok none,
      get_run_call requested_id
          ∷ calls_of service
              (list_by_ids_call "shop" "p" "orders" ("a" ∷ "b" ∷ []) ∷ [])
              requested_id
              (entry "a" 10)
              ((entry "b" 20) ∷ [])
              willing,
    ))
unfolding sort_entries insert_entry
create_batch-forms_example =
    create_batch-forms small_go service "shop" "p" "orders" ("a" ∷ "b" ∷ []) [] listed_entries
      (entry "a" 10) ((entry "b" 20) ∷ []) requested_id accepted refl (Perm.swap "a" "b" [])
      in_scope refl refl willing
