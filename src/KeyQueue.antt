-- ===== src/KeyQueue.antt =====
-- internal/runtime/keyqueue/queue.go: a queue for each partition key, and the goroutines that submit to the queues
-- and work on them. A step is what one goroutine does under a lock, or in one operation on a channel; a
-- context may be done at any time. Every queue that was ever made stays in the list `heap`, so that a
-- pointer is a position of it; the map `kq.queues` are those that are `live`.
-- `delivery` stands for the broker's handle.
pub mod Invariant
pub mod Changes
pub mod Spawn
pub mod Registration
pub mod Completion
pub mod Locals
pub mod Steps
pub mod Order
pub mod Guarantees
pub mod Fifo
mod Tests
pub mod HotKeys
use kafka_simulate_rule.Prelude.{
  pos_part, ◌<◌, zero, ◌==◌, str_eq, not, get_elem?, suc, is_positive, ◌∷◌, if◌then◌else◌, length,
  none, set, some, ◌&&◌, ◌++◌, [], ◌+◌, ℕ, ℤ, false, true, ◌-◌, List, String, Option, Bool, ◌≡◌,
}
use kafka_simulate_rule.Domain.Event.{EventEnvelope}

pub record QueuedItem : Type 0 where
  pub env : EventEnvelope
  pub delivery : ℕ
  pub fencing_token : ℤ
  pub vshard : ℕ
  pub worker_id : String

abbrev pub key_of : QueuedItem → String
key_of item = item.env.partition_key

-- `items` is what the channel holds, oldest first.
pub record Queue : Type 0 where
  pub partition_key : String
  pub items : List QueuedItem
  pub processing : Bool
  pub submitters : ℕ
  pub live : Bool

-- Where a goroutine stands. A submitter waits for a global slot, has one, is registered at a queue, has to
-- give its slot back, and leaves the queue; a worker is idle, has selected a queue, works on an item that it
-- took from a queue, and has to give the slot back.
pub data Thread : Type 0 where
  waiting : QueuedItem → Thread
  slotted : QueuedItem → Thread
  registered : ℕ → QueuedItem → Thread
  cancelling : ℕ → Thread
  leaving : ℕ → Thread
  idle : Thread
  selected : ℕ → Thread
  working : ℕ → QueuedItem → Thread
  releasing : Thread
  finished : Thread

-- `slots` is the number of tokens in `globalSem`. The last two lists are not in the source: the items that
-- were sent to the channels and those that were received, oldest first.
pub record KeyQueue : Type 0 where
  pub max_global : ℕ
  pub max_per_key : ℕ
  pub worker_count : ℕ
  pub started : Bool
  pub stopped : Bool
  pub slots : ℕ
  pub heap : List Queue
  pub threads : List Thread
  pub sent : List QueuedItem
  pub taken : List QueuedItem

abbrev pub is_queue_of : String → Queue → Bool
is_queue_of key q = q.live && str_eq q.partition_key key

abbrev pub later : Option ℕ → Option ℕ
later none = none
later (some p) = some (suc p)

-- `kq.queues[key]`
unfoldable pub find_queue : List Queue → String → Option ℕ
find_queue [] key = none
find_queue (q ∷ qs) key =
    let rest = find_queue qs key in if is_queue_of key q then some 0 else later rest

abbrev pub new_queue : String → Queue
new_queue key = record {
  partition_key = key;
  items = [];
  processing = false;
  submitters = 1;
  live = true;
}

abbrev pub add_submitter : Queue → Queue
add_submitter q = record q { submitters = q.submitters + 1 }

-- `f(q)` for the queue at a pointer.
unfoldable pub update_queue : List Queue → ℕ → (Queue → Queue) → List Queue
update_queue [] p f = []
update_queue (q ∷ qs) zero f = f q ∷ qs
update_queue (q ∷ qs) (suc p) f = q ∷ update_queue qs p f

unfoldable pub register_at : List Queue → String → Option ℕ → ℕ × List Queue
unfolding update_queue
register_at qs key none = (length qs, qs ++ new_queue key ∷ [])
register_at qs key (some p) = (p, update_queue qs p add_submitter)

-- The pointer, and the heap.
unfoldable pub register_queue_submitter : List Queue → String → ℕ × List Queue
unfolding register_at find_queue
register_queue_submitter qs key = register_at qs key (find_queue qs key)

abbrev pub is_empty_list : List QueuedItem → Bool
is_empty_list [] = true
is_empty_list (x ∷ xs) = false

-- `finishSubmit`: the last submitter of an idle, empty queue deletes it.
unfoldable pub finish_submit : Queue → Queue
finish_submit q =
    let n = q.submitters - 1 in
    record q {
      submitters = n;
      live = q.live && not (not q.processing && (n == 0 && is_empty_list q.items));
    }

abbrev pub selectable : Queue → Bool
selectable q = q.live && (not q.processing && not (is_empty_list q.items))

abbrev pub select_queue : Queue → Queue
select_queue q = record q { processing = true }

abbrev pub finish_queue : Queue → Queue
finish_queue q = record q {
  processing = false;
  live = q.live && not (q.submitters == 0 && is_empty_list q.items);
}

unfoldable pub finish_at : List Queue → Option ℕ → List Queue
unfolding update_queue
finish_at qs none = qs
finish_at qs (some p) = update_queue qs p finish_queue

-- `finishEvent` looks the queue up by the key.
unfoldable pub finish_event : List Queue → String → List Queue
unfolding finish_at find_queue
finish_event qs key = finish_at qs (find_queue qs key)

abbrev pub items_of : Option Queue → List QueuedItem
items_of none = []
items_of (some q) = q.items

abbrev pub items_at : List Queue → Option ℕ → List QueuedItem
items_at qs none = []
items_at qs (some p) = items_of (get_elem? qs p)

-- What `queues[key].ch` holds, nothing if there is no such queue.
unfoldable pub queued_items : List Queue → String → List QueuedItem
unfolding find_queue
queued_items qs key = items_at qs (find_queue qs key)

-- `QueueDepth`
unfoldable pub queue_depth : List Queue → String → ℕ
unfolding queued_items
queue_depth qs key = length (queued_items qs key)

-- The goroutines of `workerLoop`.
abbrev pub workers : ℕ → List Thread
workers zero = []
workers (suc n) = idle ∷ workers n

abbrev pub goto : KeyQueue → ℕ → Thread → KeyQueue
goto s i t = record s { threads = set s.threads i t }

pub data Step (s : KeyQueue) : KeyQueue → Type 0 where
  start :
      s.started ≡ false
      → s.stopped ≡ false
      → Step s (record s { started = true; threads = s.threads ++ workers s.worker_count })
  stop : Step s (record s { stopped = true })
  exit_worker : (i : ℕ) → get_elem? s.threads i ≡ some idle → Step s (goto s i finished)
  begin_submission :
      (item : QueuedItem)
      → s.started ≡ true
      → s.stopped ≡ false
      → Step s (record s { threads = s.threads ++ waiting item ∷ [] })
  give_up :
      (i : ℕ) (item : QueuedItem)
      → get_elem? s.threads i ≡ some (waiting item)
      → Step s (goto s i finished)
  acquire_global_slot :
      (i : ℕ) (item : QueuedItem)
      → get_elem? s.threads i ≡ some (waiting item)
      → s.slots < s.max_global
      → Step s (record (goto s i (slotted item)) { slots = s.slots + 1 })
  register :
      (i : ℕ) (item : QueuedItem)
      → get_elem? s.threads i ≡ some (slotted item)
      → Step s
          (record (goto s i (registered (register_queue_submitter s.heap (key_of item)).0 item)) {
            heap = (register_queue_submitter s.heap (key_of item)).1;
          })
  enqueue_item :
      (i p : ℕ) (item : QueuedItem) (q : Queue)
      → get_elem? s.threads i ≡ some (registered p item)
      → get_elem? s.heap p ≡ some q
      → length q.items < s.max_per_key
      → Step s (record (goto s i (leaving p)) {
        heap = set s.heap p (record q { items = q.items ++ item ∷ [] });
        sent = s.sent ++ item ∷ [];
      })
  cancel_item :
      (i p : ℕ) (item : QueuedItem)
      → get_elem? s.threads i ≡ some (registered p item)
      → Step s (goto s i (cancelling p))
  release_submitter :
      (i p : ℕ)
      → get_elem? s.threads i ≡ some (cancelling p)
      → Step s (record (goto s i (leaving p)) { slots = s.slots - 1 })
  leave :
      (i p : ℕ) (q : Queue)
      → get_elem? s.threads i ≡ some (leaving p)
      → get_elem? s.heap p ≡ some q
      → Step s (record (goto s i finished) { heap = set s.heap p (finish_submit q) })
  next_event :
      (i p : ℕ) (q : Queue)
      → get_elem? s.threads i ≡ some idle
      → get_elem? s.heap p ≡ some q
      → selectable q ≡ true
      → Step s (record (goto s i (selected p)) { heap = set s.heap p (select_queue q) })
  receive :
      (i p : ℕ) (item : QueuedItem) (rest : List QueuedItem) (q : Queue)
      → get_elem? s.threads i ≡ some (selected p)
      → get_elem? s.heap p ≡ some q
      → q.items ≡ item ∷ rest
      → Step s (record (goto s i (working p item)) {
        heap = set s.heap p (record q { items = rest });
        taken = s.taken ++ item ∷ [];
      })
  finish :
      (i p : ℕ) (item : QueuedItem)
      → get_elem? s.threads i ≡ some (working p item)
      → Step s (record (goto s i releasing) { heap = finish_event s.heap (key_of item) })
  release_worker :
      (i : ℕ)
      → get_elem? s.threads i ≡ some releasing
      → Step s (record (goto s i idle) { slots = s.slots - 1 })

-- A setting that has to be positive.
abbrev pub positive_or : ℕ → ℤ → ℕ
positive_or other n = if is_positive n then pos_part n else other

-- A key queue as `NewKeyQueue` makes it.
unfoldable pub new_key_queue : ℤ → ℤ → ℤ → KeyQueue
new_key_queue max_global max_per_key worker_count = record {
  max_global = positive_or 100 max_global;
  max_per_key = positive_or 100 max_per_key;
  worker_count = positive_or 1 worker_count;
  started = false;
  stopped = false;
  slots = 0;
  heap = [];
  threads = [];
  sent = [];
  taken = [];
}

-- What `NewKeyQueue` made becomes after some steps.
pub data Reach (s : KeyQueue) : KeyQueue → Type 0 where
  initially : Reach s s
  after : {t u : KeyQueue} → Reach s t → Step t u → Reach s u
