-- ===== src/KeyQueue/Invariant.antt =====
-- The invariant of the key queue of internal/runtime/keyqueue/queue.go, and the changes that keep it.
use kafka_simulate_rule.Prelude.{
  sum_of-ge, sum_of-le, ◌≢◌, sum_of-set, length, arith, ◌+◌, ◌==◌, sum_of, some, false, All, ◌≡◌,
  true, ◌≤◌, get_elem?, String, Bool, List, ℕ,
}
use kafka_simulate_rule.KeyQueue.{
  finished, idle, releasing, [], working, leaving, waiting, set, cancelling, key_of, Queue,
  selected, registered, slotted, QueuedItem, Thread,
}

abbrev pub bit : Bool → ℕ
bit true = 1
bit false = 0

-- Is the goroutine counted among the submitters of the queue at `p`?
abbrev pub holds : ℕ → Thread → ℕ
holds p (registered r item) = bit (p == r)
holds p (cancelling r) = bit (p == r)
holds p (leaving r) = bit (p == r)
holds p _ = 0

-- Is it a worker that the queue at `p` is reserved for?
abbrev pub works : ℕ → Thread → ℕ
works p (selected r) = bit (p == r)
works p (working r item) = bit (p == r)
works p _ = 0

-- One that has not taken its item yet?
abbrev pub selects : ℕ → Thread → ℕ
selects p (selected r) = bit (p == r)
selects p _ = 0

-- Does it own a slot, while its item is in no channel?
abbrev pub has_slot : Thread → ℕ
has_slot (slotted item) = 1
has_slot (registered r item) = 1
has_slot (cancelling r) = 1
has_slot (working r item) = 1
has_slot releasing = 1
has_slot _ = 0

abbrev pub depth : List Queue → ℕ
depth qs = sum_of (λ (q : Queue). length q.items) qs

abbrev pub HasKey : List Queue → ℕ → String → Type 0
HasKey heap p key = (q : Queue) → get_elem? heap p ≡ some q → q.partition_key ≡ key

-- The item at hand is of the queue's key.
abbrev pub IsNamed : List Queue → Thread → Type 0
IsNamed heap (registered p item) = HasKey heap p (key_of item)
IsNamed heap (working p item) = HasKey heap p (key_of item)
IsNamed heap _ = Unit

abbrev pub AllOf : String → List QueuedItem → Type 0
AllOf key items = All (λ (item : QueuedItem). key_of item ≡ key) items

-- The counters of a queue are those of the goroutines, and a queue that was deleted is not in use.
pub record IsGood (max_per_key : ℕ) (threads : List Thread) (p : ℕ) (q : Queue) : Type 0 where
  pub submitters : q.submitters ≡ sum_of (holds p) threads
  pub exclusive : bit q.processing ≡ sum_of (works p) threads
  pub ready : sum_of (selects p) threads ≤ length q.items
  pub dead : q.live ≡ false → (q.submitters ≡ 0) × (q.processing ≡ false) × (q.items ≡ [])
  pub bounded : length q.items ≤ max_per_key
  pub keyed : AllOf q.partition_key q.items

pub record Invariant (max_global max_per_key slots : ℕ) (heap : List Queue) (threads : List Thread)
    : Type 0 where
  pub accounted : slots ≡ depth heap + sum_of has_slot threads
  pub limited : slots ≤ max_global
  pub good : (p : ℕ) (q : Queue) → get_elem? heap p ≡ some q → IsGood max_per_key threads p q
  pub fresh :
      (p : ℕ) → length heap ≤ p → (sum_of (holds p) threads ≡ 0) × (sum_of (works p) threads ≡ 0)
  pub unique :
      (p r : ℕ) (q u : Queue)
      → get_elem? heap p ≡ some q
      → get_elem? heap r ≡ some u
      → q.live ≡ true
      → u.live ≡ true
      → q.partition_key ≡ u.partition_key
      → p ≡ r
  pub named : (i : ℕ) (t : Thread) → get_elem? threads i ≡ some t → IsNamed heap t

pub selects-le-works : (p : ℕ) (t : Thread) → selects p t ≤ works p t
selects-le-works p (selected r) = omega arith
selects-le-works p (waiting item) = omega arith
selects-le-works p (slotted item) = omega arith
selects-le-works p (registered r item) = omega arith
selects-le-works p (cancelling r) = omega arith
selects-le-works p (leaving r) = omega arith
selects-le-works p idle = omega arith
selects-le-works p (working r item) = omega arith
selects-le-works p releasing = omega arith
selects-le-works p finished = omega arith

-- Two goroutines that count alike for every queue but the one at `p`.
pub record Elsewhere (r : ℕ) (a b : Thread) : Type 0 where
  pub holding : holds r a ≡ holds r b
  pub work : works r a ≡ works r b
  pub selection : selects r a ≡ selects r b

-- What a goroutine may do to the queue at `p` as it goes from `a` to `b`.
pub record Local (max_per_key p : ℕ) (a b : Thread) (q u : Queue) : Type 0 where
  pub same_key : u.partition_key ≡ q.partition_key
  pub submitters : u.submitters + holds p a ≡ q.submitters + holds p b
  pub exclusive : bit u.processing + works p a ≡ bit q.processing + works p b
  pub ready :
      (n : ℕ)
      → n ≤ length q.items
      → n ≤ bit q.processing
      → selects p a ≤ n
      → n + selects p b ≤ length u.items + selects p a
  pub elsewhere : (r : ℕ) → r ≢ p → Elsewhere r a b
  pub stays : u.live ≡ true → q.live ≡ true
  pub dead : u.live ≡ false → (u.submitters ≡ 0) × (u.processing ≡ false) × (u.items ≡ [])
  pub bounded : length u.items ≤ max_per_key
  pub keyed : AllOf u.partition_key u.items

module _ (max_per_key : ℕ) (threads : List Thread) (i : ℕ) (a b : Thread)
    (at : get_elem? threads i ≡ some a) where
  pub Local-IsGood :
      (p : ℕ) (q u : Queue)
      → Local max_per_key p a b q u
      → IsGood max_per_key threads p q
      → IsGood max_per_key (set threads i b) p u
  Local-IsGood p q u l g =
      let h = sum_of-set (holds p) threads i b at in
      let w = sum_of-set (works p) threads i b at in
      let e = sum_of-set (selects p) threads i b at in
      let le = sum_of-le (selects p) (works p) threads (selects-le-works p) in
      let ge = sum_of-ge (selects p) threads i at in
      let r = l.ready (sum_of (selects p) threads) g.ready (omega (arith, le, g.exclusive)) ge in
      record {
        submitters = omega (arith, l.submitters, g.submitters, h);
        exclusive = omega (arith, l.exclusive, g.exclusive, w);
        ready = omega (arith, r, e);
        dead = l.dead;
        bounded = l.bounded;
        keyed = l.keyed;
      }

  pub Elsewhere-IsGood :
      (r : ℕ) (q : Queue)
      → Elsewhere r a b
      → IsGood max_per_key threads r q
      → IsGood max_per_key (set threads i b) r q
  Elsewhere-IsGood r q e g =
      let h = sum_of-set (holds r) threads i b at in
      let w = sum_of-set (works r) threads i b at in
      let k = sum_of-set (selects r) threads i b at in
      record {
        submitters = omega (arith, e.holding, g.submitters, h);
        exclusive = omega (arith, e.work, g.exclusive, w);
        ready = omega (arith, e.selection, g.ready, k);
        dead = g.dead;
        bounded = g.bounded;
        keyed = g.keyed;
      }

  pub Elsewhere-fresh :
      (r : ℕ)
      → Elsewhere r a b
      → (sum_of (holds r) threads ≡ 0) × (sum_of (works r) threads ≡ 0)
      → (sum_of (holds r) (set threads i b) ≡ 0) × (sum_of (works r) (set threads i b) ≡ 0)
  Elsewhere-fresh r e f =
      let h = sum_of-set (holds r) threads i b at in
      let w = sum_of-set (works r) threads i b at in
      (omega (arith, f.0, h, e.holding), omega (arith, f.1, w, e.work))
