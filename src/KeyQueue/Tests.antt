-- ===== src/KeyQueue/Tests.antt =====
-- A run of the key queue of internal/runtime/keyqueue/queue.go: two workers, a first item that is processed
-- and a second one that waits behind it.
use kafka_simulate_rule.Prelude.{
  eq_iff, length, ◌≤◌, arith, sum_of, Bool, none, ◌+◌, some, refl, pos, ◌∷◌, ◌++◌, true, get_elem?,
  String, List, ◌≡◌, ◌≡◌, ℕ,
}
use kafka_simulate_rule.KeyQueue.{
  register, next_event, acquire_global_slot, leave, begin_submission, key_of, start, Queue, leaving,
  receive, update_queue, enqueue_item, registered, finished, initially, register_at, after, working,
  selected, idle, false, finish_submit, [], find_queue, new_queue, register_queue_submitter,
  QueuedItem, Reach, new_key_queue, queued_items, KeyQueue,
}
use kafka_simulate_rule.KeyQueue.Order.{of_key}
use kafka_simulate_rule.KeyQueue.Guarantees.{
  Reach-slots, Reach-served, sent-eq-taken_queued, one_worker_per_key,
}
use kafka_simulate_rule.KeyQueue.Invariant.{has_slot, depth}
use kafka_simulate_rule.KeyQueue.HotKeys.{update_hot_key_state, lookup}
use kafka_simulate_rule.KeyQueue.HotKeys.Laws.{update_hot_key_state-tracked, newly_hot, tracked}

abbrev item : String → QueuedItem
item id = record {
  env = record {
    id = id;
    event_type = "order.created";
    tenant_id = "shop";
    partition_key = "order-7";
    workflow_id = "";
    occurred_at = 1700000000;
    payload = "";
    headers = none;
  };
  delivery = 1;
  fencing_token = pos 4;
  vshard = 12;
  worker_id = "worker-1";
}

abbrev started_queue : KeyQueue
started_queue = record {
  max_global = 2;
  max_per_key = 1;
  worker_count = 2;
  started = true;
  stopped = false;
  slots = 0;
  heap = [];
  threads = idle ∷ idle ∷ [];
  sent = [];
  taken = [];
}

abbrev submitting : KeyQueue
submitting = record started_queue {
  slots = 1;
  heap = new_queue "order-7" ∷ [];
  threads = idle ∷ idle ∷ registered 0 (item "a") ∷ [];
}

abbrev queue_with : List QueuedItem → Bool → ℕ → Queue
queue_with items processing submitters = record {
  partition_key = "order-7";
  items = items;
  processing = processing;
  submitters = submitters;
  live = true;
}

abbrev sent_one : KeyQueue
sent_one = record submitting {
  heap = queue_with (item "a" ∷ []) false 1 ∷ [];
  threads = idle ∷ idle ∷ leaving 0 ∷ [];
  sent = item "a" ∷ [];
}

abbrev reserved : KeyQueue
reserved = record sent_one {
  heap = queue_with (item "a" ∷ []) true 0 ∷ [];
  threads = selected 0 ∷ idle ∷ finished ∷ [];
}

abbrev processing : KeyQueue
processing = record reserved {
  heap = queue_with [] true 0 ∷ [];
  threads = working 0 (item "a") ∷ idle ∷ finished ∷ [];
  taken = item "a" ∷ [];
}

abbrev waiting_behind : KeyQueue
waiting_behind = record processing {
  slots = 2;
  heap = queue_with (item "b" ∷ []) true 1 ∷ [];
  threads = working 0 (item "a") ∷ idle ∷ finished ∷ leaving 0 ∷ [];
  sent = item "a" ∷ item "b" ∷ [];
}

run-submitting : Reach (new_key_queue (pos 2) (pos 1) (pos 2)) submitting
unfolding new_key_queue register_queue_submitter register_at find_queue
run-submitting =
    after
      (after (after (after initially (start refl refl)) (begin_submission (item "a") refl refl))
        (acquire_global_slot 2 (item "a") refl (omega arith)))
      (register 2 (item "a") refl)

run-reserved : Reach (new_key_queue (pos 2) (pos 1) (pos 2)) reserved
unfolding new_key_queue finish_submit
run-reserved =
    after
      (after
        (after run-submitting
          (enqueue_item 2 0 (item "a") (new_queue "order-7") refl refl (omega arith)))
        (leave 2 0 (queue_with (item "a" ∷ []) false 1) refl refl))
      (next_event 0 0 (queue_with (item "a" ∷ []) false 0) refl refl refl)

run-processing : Reach (new_key_queue (pos 2) (pos 1) (pos 2)) processing
run-processing =
    after run-reserved
      (receive 0 0 (item "a") [] (queue_with (item "a" ∷ []) true 0) refl refl refl)

run-waiting_behind : Reach (new_key_queue (pos 2) (pos 1) (pos 2)) waiting_behind
unfolding new_key_queue register_queue_submitter register_at find_queue update_queue
run-waiting_behind =
    after
      (after
        (after (after run-processing (begin_submission (item "b") refl refl))
          (acquire_global_slot 3 (item "b") refl (omega arith)))
        (register 3 (item "b") refl))
      (enqueue_item 3 0 (item "b") (queue_with [] true 1) refl refl (omega arith))

Reach-slots_example :
    (waiting_behind.slots ≡ depth waiting_behind.heap + sum_of has_slot waiting_behind.threads)
    × (waiting_behind.slots ≤ 2)
    × ((p : ℕ) (q : Queue) → get_elem? waiting_behind.heap p ≡ some q → length q.items ≤ 1)
Reach-slots_example = Reach-slots (pos 2) (pos 1) (pos 2) waiting_behind run-waiting_behind

one_worker_per_key_example : ◌≡◌ {A = ℕ} 0 0
one_worker_per_key_example =
    one_worker_per_key (pos 2) (pos 1) (pos 2) waiting_behind 0 0 0 0 (item "a") (item "a")
      run-waiting_behind refl refl refl

sent-eq-taken_queued_example :
    of_key "order-7" waiting_behind.sent
    ≡ of_key "order-7" waiting_behind.taken ++ queued_items waiting_behind.heap "order-7"
sent-eq-taken_queued_example =
    sent-eq-taken_queued (pos 2) (pos 1) (pos 2) waiting_behind "order-7" run-waiting_behind

queued_items-waiting_behind : queued_items waiting_behind.heap "order-7" ≡ item "b" ∷ []
unfolding queued_items find_queue
queued_items-waiting_behind = refl

Reach-served_example :
    ((i p : ℕ)
      → get_elem? reserved.threads i ≡ some (selected p)
      → (q : Queue) × (x : QueuedItem) × (rest : List QueuedItem) × (get_elem? reserved.heap p
          ≡ some q)
        × (q.items ≡ x ∷ rest))
    × ((i p : ℕ) (x : QueuedItem)
        → get_elem? reserved.threads i ≡ some (registered p x)
        → find_queue reserved.heap (key_of x) ≡ some p)
    × ((p : ℕ) (q : Queue)
        → get_elem? reserved.heap p ≡ some q
        → 1 ≤ length q.items
        → find_queue reserved.heap q.partition_key ≡ some p)
Reach-served_example = Reach-served (pos 2) (pos 1) (pos 2) reserved run-reserved

abbrev snapshot : List (String × ℕ)
snapshot = ("order-7", 3) ∷ ("order-8", 1) ∷ []

update_hot_key_state-tracked_example :
    ((key : String)
      → lookup key (update_hot_key_state 2 snapshot 50 (("order-8", 40) ∷ [])).0
        ≡ tracked 2 50 (lookup key snapshot) (lookup key (("order-8", 40) ∷ [])))
    × ((update_hot_key_state 2 snapshot 50 (("order-8", 40) ∷ [])).1
        ≡ newly_hot 2 (("order-8", 40) ∷ []) snapshot)
update_hot_key_state-tracked_example =
    update_hot_key_state-tracked 2 snapshot 50 (("order-8", 40) ∷ [])
      (((λ e. ground (arith, e, eq_iff "order-7" "order-8")), tt), (tt, tt))
