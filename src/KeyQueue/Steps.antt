-- ===== src/KeyQueue/Steps.antt =====
-- Every step of internal/runtime/keyqueue/queue.go keeps the invariant.
use kafka_simulate_rule.KeyQueue.{
  initially, stop, release_worker, finish, receive, select_queue, selected, next_event,
  finish_submit, leave, release_submitter, cancelling, cancel_item, [], leaving, enqueue_item,
  register_queue_submitter, register, acquire_global_slot, give_up, waiting, begin_submission,
  finished, exit_worker, after, add_submitter, start, Reach, Step, new_key_queue, finish_queue,
  registered, set, key_of, finish_event, find_queue, releasing, goto, Queue, slotted, working, idle,
  Thread, QueuedItem, register_at, KeyQueue,
}
use kafka_simulate_rule.Prelude.{
  suc, sum_of-ge, ◌-◌, length-append, ◌++◌, none, ◌∷◌, ℤ, List, ap, refl, subst, ◌+◌, arith, length,
  Option, sym, ◌∙◌, some, ◌≡◌, get_elem?, ℕ,
}
use kafka_simulate_rule.KeyQueue.Invariant.{
  AllOf, HasKey, has_slot, Local, IsNamed, Elsewhere, Invariant,
}
use kafka_simulate_rule.KeyQueue.Changes.{change-Invariant, goto-Invariant}
use kafka_simulate_rule.KeyQueue.Completion.{InMap, finish_event-eq, works-InMap}
use kafka_simulate_rule.KeyQueue.Registration.{register_new-Invariant, bit_self}
use kafka_simulate_rule.KeyQueue.Locals.{
  receive-Local, select_queue-Local, finish_submit-Local, enqueue_item-Local, register-Local,
  finish_queue-Local,
}
use kafka_simulate_rule.KeyQueue.Spawn.{
  spawn-Invariant, workers-Invariant, update_queue-set, find_queue-eq-some,
}

abbrev pub IsValid : KeyQueue → Type 0
IsValid s = Invariant s.max_global s.max_per_key s.slots s.heap s.threads

weightless : (r : ℕ) (a b : Thread) → Elsewhere r a idle → Elsewhere r b idle → Elsewhere r a b
weightless r a b x y = record {
  holding = x.holding ∙ sym y.holding;
  work = x.work ∙ sym y.work;
  selection = x.selection ∙ sym y.selection;
}

module _ (s : KeyQueue) (v : IsValid s) (i : ℕ) where
  leave_thread :
      (a b : Thread)
      → get_elem? s.threads i ≡ some a
      → ((r : ℕ) → Elsewhere r a b)
      → IsNamed s.heap b
      → has_slot a ≡ has_slot b
      → IsValid (goto s i b)
  leave_thread a b at e n same =
      goto-Invariant s.max_global s.max_per_key s.slots s.heap s.threads v i a b at s.slots e n
        (omega (arith, same)) v.limited

  module _ (a b : Thread) (at : get_elem? s.threads i ≡ some a) (p : ℕ) (q u : Queue)
      (here : get_elem? s.heap p ≡ some q) where
    with_queue :
        Local s.max_per_key p a b q u
        → IsNamed s.heap b
        → length q.items + has_slot a ≡ length u.items + has_slot b
        → IsValid (record (goto s i b) { heap = set s.heap p u })
    with_queue l n same =
        change-Invariant s.max_global s.max_per_key s.slots s.heap s.threads v i a b at s.slots p q
          u here l n (omega (arith, same)) v.limited

  received-HasKey :
      (p : ℕ) (item : QueuedItem) (rest : List QueuedItem) (q : Queue)
      → get_elem? s.heap p ≡ some q
      → q.items ≡ item ∷ rest
      → HasKey s.heap p (key_of item)
  received-HasKey p item rest q here h z g =
      let both : some z ≡ some q = sym g ∙ here in
      let same : z ≡ q = cc both in
      ap (λ (y : Queue). y.partition_key) same
      ∙ sym (subst (AllOf q.partition_key) h (v.good p q here).keyed).0

  pub register-IsValid :
      (item : QueuedItem)
      → get_elem? s.threads i ≡ some (slotted item)
      → (o : Option ℕ) → find_queue s.heap (key_of item) ≡ o
      → Invariant s.max_global s.max_per_key s.slots
          (register_at s.heap (key_of item) o).1
          (set s.threads i (registered (register_at s.heap (key_of item) o).0 item))
  unfolding register_at
  register-IsValid item at none absent =
      register_new-Invariant s.max_global s.max_per_key s.slots s.heap s.threads v i item at absent
  register-IsValid item at (some p) present =
      let f = find_queue-eq-some s.heap (key_of item) p present in
      let l = register-Local s.max_per_key p f.q s.threads (v.good p f.q f.at) i item f.live in
      let named : HasKey s.heap p (key_of item) = λ z g.
        let both : some z ≡ some f.q = sym g ∙ f.at in
        let same : z ≡ f.q = cc both in ap (λ (y : Queue). y.partition_key) same ∙ f.named in
      rw (update_queue-set s.heap p add_submitter f.at) (
        with_queue (slotted item) (registered p item) at p f.q (add_submitter f.q) f.at l named
          refl)

  pub finish_event-item :
      (p : ℕ) (item : QueuedItem)
      → get_elem? s.threads i ≡ some (working p item)
      → (m : InMap s.heap p) → finish_event s.heap (key_of item) ≡ set s.heap p (finish_queue m.q)
  finish_event-item p item at m =
      let named : m.q.partition_key ≡ key_of item = v.named i (working p item) at m.q m.at in
      subst (λ k. finish_event s.heap k ≡ set s.heap p (finish_queue m.q)) named
        (finish_event-eq s.max_global s.max_per_key s.slots s.heap s.threads v p m.q m.at m.live)

  pub finish-IsValid :
      (p : ℕ) (item : QueuedItem)
      → get_elem? s.threads i ≡ some (working p item)
      → IsValid (record (goto s i releasing) { heap = finish_event s.heap (key_of item) })
  finish-IsValid p item at =
      let m =
        works-InMap s.max_global s.max_per_key s.slots s.heap s.threads v i p (working p item) at
          (bit_self p) in
      let l = finish_queue-Local s.max_per_key p m.q s.threads (v.good p m.q m.at) i item at in
      rw (finish_event-item p item at m)
        (with_queue (working p item) releasing at p m.q (finish_queue m.q) m.at l tt refl)

pub Step-IsValid : (s t : KeyQueue) → Step s t → IsValid s → IsValid t
Step-IsValid s t (start n h) v =
    workers-Invariant s.max_global s.max_per_key s.slots s.heap s.worker_count s.threads v
Step-IsValid s t stop v = v
Step-IsValid s t (exit_worker i at) v =
    leave_thread s v i idle finished at
      (λ r. record { holding = refl; work = refl; selection = refl }) tt refl
Step-IsValid s t (begin_submission item b c) v =
    spawn-Invariant s.max_global s.max_per_key s.slots s.heap s.threads (waiting item) v
      (λ r. record { holding = refl; work = refl; selection = refl }) refl tt
Step-IsValid s t (give_up i item at) v =
    leave_thread s v i (waiting item) finished at
      (λ r. record { holding = refl; work = refl; selection = refl }) tt refl
Step-IsValid s t (acquire_global_slot i item at room) v =
    goto-Invariant s.max_global s.max_per_key s.slots s.heap s.threads v i (waiting item)
      (slotted item) at (s.slots + 1)
      (λ r. record { holding = refl; work = refl; selection = refl }) tt (omega arith)
      (omega (arith, room))
Step-IsValid s t (register i item at) v =
    unfold register_queue_submitter in
    register-IsValid s v i item at (find_queue s.heap (key_of item)) refl
Step-IsValid s t (enqueue_item i p item q at here room) v =
    let l =
      enqueue_item-Local s.max_per_key p q s.threads (v.good p q here) i item at room
        (v.named i (registered p item) at q here) in
    with_queue s v i (registered p item) (leaving p) at p q
      (record q { items = q.items ++ item ∷ [] }) here l tt
      (omega (arith, length-append q.items (item ∷ [])))
Step-IsValid s t (cancel_item i p item at) v =
    leave_thread s v i (registered p item) (cancelling p) at
      (λ r. record { holding = refl; work = refl; selection = refl }) tt refl
Step-IsValid s t (release_submitter i p at) v =
    goto-Invariant s.max_global s.max_per_key s.slots s.heap s.threads v i (cancelling p)
      (leaving p) at (s.slots - 1) (λ r. record { holding = refl; work = refl; selection = refl })
      tt (omega (arith, v.accounted, sum_of-ge has_slot s.threads i at)) (omega (arith, v.limited))
Step-IsValid s t (leave i p q at here) v =
    let l = finish_submit-Local s.max_per_key p q s.threads (v.good p q here) i at in
    with_queue s v i (leaving p) finished at p q (finish_submit q) here l tt
      (unfold finish_submit in refl)
Step-IsValid s t (next_event i p q at here h) v =
    let l = select_queue-Local s.max_per_key p q s.threads (v.good p q here) i h in
    with_queue s v i idle (selected p) at p q (select_queue q) here l tt refl
Step-IsValid s t (receive i p item rest q at here h) v =
    let l = receive-Local s.max_per_key p q s.threads (v.good p q here) i item rest at h in
    let longer : length q.items ≡ suc (length rest) = ap length h in
    let named : HasKey s.heap p (key_of item) = received-HasKey s v i p item rest q here h in
    with_queue s v i (selected p) (working p item) at p q (record q { items = rest }) here l named
      (omega (arith, longer))
Step-IsValid s t (finish i p item at) v = finish-IsValid s v i p item at
Step-IsValid s t (release_worker i at) v =
    goto-Invariant s.max_global s.max_per_key s.slots s.heap s.threads v i releasing idle at
      (s.slots - 1) (λ r. record { holding = refl; work = refl; selection = refl }) tt
      (omega (arith, v.accounted, sum_of-ge has_slot s.threads i at)) (omega (arith, v.limited))

pub new_key_queue-IsValid : (g k w : ℤ) → IsValid (new_key_queue g k w)
unfolding new_key_queue
new_key_queue-IsValid g k w = record {
  accounted = refl;
  limited = omega arith;
  good = λ p q h. cc h;
  fresh = λ p h. (refl, refl);
  unique = λ p r q u h x l m e. cc h;
  named = λ i t h. cc h;
}

pub Reach-IsValid : (s t : KeyQueue) → Reach s t → IsValid s → IsValid t
Reach-IsValid s t initially v = v
Reach-IsValid s t (after {t = u} r h) v = Step-IsValid u t h (Reach-IsValid s u r v)
