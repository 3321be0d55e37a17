-- ===== src/KeyQueue/Guarantees.antt =====
-- What the key queue of internal/runtime/keyqueue/queue.go promises, whatever its goroutines do.
use kafka_simulate_rule.Prelude.{
  zero, suc, ap, Bool-cases, inr, append-nil, ℕ_discrete, sum_of-ge, sym, subst, inl, Option-cases,
  sum_of, true, ◌∙◌, ◌+◌, ◌∷◌, some, ◌++◌, arith, length, ◌≡◌, get_elem?, refl, ◌≤◌, ◌≢◌, ℕ, String,
  Bool, List, ℤ,
}
use kafka_simulate_rule.KeyQueue.{
  stop, release_worker, finish, receive, next_event, leave, release_submitter, cancel_item,
  enqueue_item, register, find_queue, positive_or, acquire_global_slot, give_up, registered,
  initially, [], key_of, Queue, false, begin_submission, selected, working, exit_worker, start,
  after, Reach, QueuedItem, Step, queued_items, new_key_queue, Thread, KeyQueue,
}
use kafka_simulate_rule.KeyQueue.Fifo.{Reach-InOrder, InOrder}
use kafka_simulate_rule.KeyQueue.Invariant.{works, selects, has_slot, depth, bit}
use kafka_simulate_rule.KeyQueue.Order.{of_key}
use kafka_simulate_rule.KeyQueue.Steps.{new_key_queue-IsValid, Reach-IsValid}
use kafka_simulate_rule.KeyQueue.Completion.{find_queue-InMap, holds-InMap, works-InMap}
use kafka_simulate_rule.KeyQueue.Registration.{bit_self}
use kafka_simulate_rule.KeyQueue.Spawn.{find_queue-eq-some, find_queue-eq-none}

sum_of-ge_two :
    (f : Thread → ℕ) (ts : List Thread) (i j : ℕ) {a b : Thread}
    → i ≢ j
    → get_elem? ts i ≡ some a
    → get_elem? ts j ≡ some b
    → f a + f b ≤ sum_of f ts
sum_of-ge_two f [] i j ne h k = cc h
sum_of-ge_two f (t ∷ ts) zero zero ne h k = absurd (ne refl)
sum_of-ge_two f (t ∷ ts) zero (suc j) {a = a} ne h k =
    let same : f t ≡ f a = cc in omega (arith, same, sum_of-ge f ts j k)
sum_of-ge_two f (t ∷ ts) (suc i) zero {b = b} ne h k =
    let same : f t ≡ f b = cc in omega (arith, same, sum_of-ge f ts i h)
sum_of-ge_two f (t ∷ ts) (suc i) (suc j) ne h k =
    omega (arith, sum_of-ge_two f ts i j (λ e. ne (ap suc e)) h k)

bit_le : (b : Bool) → bit b ≤ 1
bit_le true = omega arith
bit_le false = omega arith

items-cases :
    (xs : List QueuedItem)
    → 1 ≤ length xs
    → (x : QueuedItem) × (rest : List QueuedItem) × (xs ≡ x ∷ rest)
items-cases [] h = absurd (omega arith)
items-cases (x ∷ xs) h = (x, xs, refl)

new_key_queue-InOrder : (g k w : ℤ) → InOrder (new_key_queue g k w)
unfolding new_key_queue
new_key_queue-InOrder g k w = record { queued = λ p q h l. cc h; drained = λ key h. refl }

Step-limits :
    (s t : KeyQueue) → Step s t → (t.max_global ≡ s.max_global) × (t.max_per_key ≡ s.max_per_key)
Step-limits s t (start a b) = (refl, refl)
Step-limits s t stop = (refl, refl)
Step-limits s t (exit_worker i a) = (refl, refl)
Step-limits s t (begin_submission x a b) = (refl, refl)
Step-limits s t (give_up i x a) = (refl, refl)
Step-limits s t (acquire_global_slot i x a b) = (refl, refl)
Step-limits s t (register i x a) = (refl, refl)
Step-limits s t (enqueue_item i p x q a b c) = (refl, refl)
Step-limits s t (cancel_item i p x a) = (refl, refl)
Step-limits s t (release_submitter i p a) = (refl, refl)
Step-limits s t (leave i p q a b) = (refl, refl)
Step-limits s t (next_event i p q a b c) = (refl, refl)
Step-limits s t (receive i p x r q a b c) = (refl, refl)
Step-limits s t (finish i p x a) = (refl, refl)
Step-limits s t (release_worker i a) = (refl, refl)

Reach-limits :
    (s t : KeyQueue) → Reach s t → (t.max_global ≡ s.max_global) × (t.max_per_key ≡ s.max_per_key)
Reach-limits s t initially = (refl, refl)
Reach-limits s t (after {t = u} r h) =
    let x = Step-limits u t h in let y = Reach-limits s u r in (x.0 ∙ y.0, x.1 ∙ y.1)

-- Of a key queue that was made with limits of the global slots and of a key's queue, in whatever order
-- submitters, workers, `Stop` and done contexts take their steps: the slots in use are as many as there are
-- items in the channels and goroutines that own a slot, they are at most the global limit (100 where that is
-- not positive), and no channel holds more items than the limit of a key.
pub Reach-slots :
    (g k w : ℤ) (t : KeyQueue)
    → Reach (new_key_queue g k w) t
    → (t.slots ≡ depth t.heap + sum_of has_slot t.threads)
      × (t.slots ≤ positive_or 100 g)
      × ((p : ℕ) (q : Queue) → get_elem? t.heap p ≡ some q → length q.items ≤ positive_or 100 k)
unfolding new_key_queue
Reach-slots g k w t r =
    let v = Reach-IsValid (new_key_queue g k w) t r (new_key_queue-IsValid g k w) in
    let l = Reach-limits (new_key_queue g k w) t r in
    (
      v.accounted,
      subst (λ n. t.slots ≤ n) l.0 v.limited,
      λ p q h. subst (λ n. length q.items ≤ n) l.1 (v.good p q h).bounded,
    )

-- In whatever order the goroutines take their steps, two workers that process items of one partition key are
-- the same worker.
pub one_worker_per_key :
    (g k w : ℤ) (t : KeyQueue) (i j p r : ℕ) (x y : QueuedItem)
    → Reach (new_key_queue g k w) t
    → get_elem? t.threads i ≡ some (working p x)
    → get_elem? t.threads j ≡ some (working r y)
    → key_of x ≡ key_of y
    → i ≡ j
one_worker_per_key g k w t i j p r x y h a b e =
    let v = Reach-IsValid (new_key_queue g k w) t h (new_key_queue-IsValid g k w) in
    let m =
      works-InMap t.max_global t.max_per_key t.slots t.heap t.threads v i p (working p x) a
        (bit_self p) in
    let n =
      works-InMap t.max_global t.max_per_key t.slots t.heap t.threads v j r (working r y) b
        (bit_self r) in
    let same_key =
      v.named i (working p x) a m.q m.at ∙ e ∙ sym (v.named j (working r y) b n.q n.at) in
    let same = v.unique p r m.q n.q m.at n.at m.live n.live same_key in
    elim (ℕ_discrete i j) [
      | yes z ↦ z
      | no ne ↦
          let both = sum_of-ge_two (works p) t.threads i j ne a b in
          let one : works p (working r y) ≡ 1 =
            subst (λ l. works p (working l y) ≡ 1) same (bit_self p) in
          absurd (
            omega
              (arith, both, one, bit_self p, (v.good p m.q m.at).exclusive, bit_le m.q.processing))
    ]

-- In whatever order the goroutines take their steps, and for every partition key: the items of the key that
-- were put on a queue, in the order of the sends, are the items of the key that workers took, in the order
-- of the receives, followed by what the queue in the map holds under the key, oldest first. So no item is
-- lost, duplicated or overtaken, though queues are deleted and made again.
pub sent-eq-taken_queued :
    (g k w : ℤ) (t : KeyQueue) (key : String)
    → Reach (new_key_queue g k w) t
    → of_key key t.sent ≡ of_key key t.taken ++ queued_items t.heap key
unfolding queued_items
sent-eq-taken_queued g k w t key r =
    let v = Reach-IsValid (new_key_queue g k w) t r (new_key_queue-IsValid g k w) in
    let f =
      Reach-InOrder (new_key_queue g k w) t r (new_key_queue-IsValid g k w)
        (new_key_queue-InOrder g k w) in
    elim (Option-cases (find_queue t.heap key)) [
      | inl e ↦ rw e (
          f.drained key (λ p q at live. find_queue-eq-none t.heap key p q e at live)
          ∙ sym (append-nil (of_key key t.taken)))
      | inr e ↦
          let c = find_queue-eq-some t.heap key e.0 e.1 in
          rw e.1 (
            rw c.at (
              subst (λ z. of_key z t.sent ≡ of_key z t.taken ++ c.q.items) c.named
                (f.queued e.0 c.q c.at c.live)))
    ]

-- In whatever order the goroutines take their steps: a worker that has reserved a queue finds an item in it,
-- so its receive from the channel does not block; a submitter that is at a queue sends to the queue that the
-- map holds under the item's key; and a queue that holds an item is the one that the map holds under its key.
pub Reach-served :
    (g k w : ℤ) (t : KeyQueue)
    → Reach (new_key_queue g k w) t
    → ((i p : ℕ)
        → get_elem? t.threads i ≡ some (selected p)
        → (q : Queue) × (item : QueuedItem) × (rest : List QueuedItem) × (get_elem? t.heap p
            ≡ some q)
          × (q.items ≡ item ∷ rest))
      × ((i p : ℕ) (item : QueuedItem)
          → get_elem? t.threads i ≡ some (registered p item)
          → find_queue t.heap (key_of item) ≡ some p)
      × ((p : ℕ) (q : Queue)
          → get_elem? t.heap p ≡ some q
          → 1 ≤ length q.items
          → find_queue t.heap q.partition_key ≡ some p)
Reach-served g k w t r =
    let v = Reach-IsValid (new_key_queue g k w) t r (new_key_queue-IsValid g k w) in
    (
      λ i p at.
          let m =
            works-InMap t.max_global t.max_per_key t.slots t.heap t.threads v i p (selected p) at
              (bit_self p) in
          let some_item : 1 ≤ length m.q.items =
            omega (
              arith,
              (v.good p m.q m.at).ready,
              sum_of-ge (selects p) t.threads i at,
              bit_self p,
            ) in
          let c = items-cases m.q.items some_item in (m.q, c.0, c.1, m.at, c.2),
      λ i p item at.
          let m =
            holds-InMap t.max_global t.max_per_key t.slots t.heap t.threads v i p
              (registered p item) at (bit_self p) in
          subst (λ key. find_queue t.heap key ≡ some p) (v.named i (registered p item) at m.q m.at)
            (find_queue-InMap t.max_global t.max_per_key t.slots t.heap t.threads v p m.q m.at
              m.live),
      λ p q at some_item.
          find_queue-InMap t.max_global t.max_per_key t.slots t.heap t.threads v p q at
            (elim (Bool-cases q.live) [
              | inl e ↦ e
              | inr e ↦ absurd (omega (arith, some_item, ap length ((v.good p q at).dead e).2))
            ]),
    )
