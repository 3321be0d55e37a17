-- ===== src/KeyQueue/Fifo.antt =====
-- Every step of internal/runtime/keyqueue/queue.go keeps the items of one key in order.
use kafka_simulate_rule.KeyQueue.{
  stop, release_worker, finish, receive, select_queue, selected, next_event, finish_submit,
  finished, leave, release_submitter, cancel_item, leaving, enqueue_item, register_queue_submitter,
  register, acquire_global_slot, give_up, initially, begin_submission, exit_worker, after, start,
  Reach, Step, registered, add_submitter, finish_queue, releasing, [], set, find_queue,
  finish_event, key_of, slotted, working, Thread, Queue, QueuedItem, register_at, KeyQueue,
}
use kafka_simulate_rule.KeyQueue.Order.{
  set-IsFifo, of_key-append_same, of_key-append_other, append-IsFifo, of_key, SameButFor, IsFifo,
}
use kafka_simulate_rule.KeyQueue.Steps.{
  Step-IsValid, Reach-IsValid, register-IsValid, finish-IsValid, finish_event-item, IsValid,
}
use kafka_simulate_rule.Prelude.{
  arith, none, append_assoc, ap, get_elem?-lt, refl, subst, get_elem?-set_self, ◌++◌, ◌∙◌, ◌∷◌, sym,
  Option, true, some, ◌≡◌, get_elem?, List, ℕ,
}
use kafka_simulate_rule.KeyQueue.Completion.{holds-InMap, works-InMap, InMap}
use kafka_simulate_rule.KeyQueue.Invariant.{AllOf, holds, works, Invariant}
use kafka_simulate_rule.KeyQueue.Registration.{bit_self}
use kafka_simulate_rule.KeyQueue.Spawn.{update_queue-set, find_queue-eq-some}

abbrev pub InOrder : KeyQueue → Type 0
InOrder s = IsFifo s.heap s.sent s.taken

module _ (s : KeyQueue) (v : IsValid s) where
  InMap-live : (p : ℕ) (q : Queue) → get_elem? s.heap p ≡ some q → InMap s.heap p → q.live ≡ true
  InMap-live p q at m =
      let both : some m.q ≡ some q = sym m.at ∙ at in
      let same : m.q ≡ q = cc both in subst (λ (z : Queue). z.live ≡ true) same m.live

  -- One queue of the map is written.
  written-IsFifo :
      (threads : List Thread) (p : ℕ) (q u : Queue) (sent taken : List QueuedItem)
      → get_elem? s.heap p ≡ some q
      → q.live ≡ true
      → u.partition_key ≡ q.partition_key
      → Invariant s.max_global s.max_per_key s.slots (set s.heap p u) threads
      → of_key u.partition_key sent ≡ of_key u.partition_key taken ++ u.items
      → SameButFor q.partition_key sent s.sent
      → SameButFor q.partition_key taken s.taken
      → InOrder s
      → IsFifo (set s.heap p u) sent taken
  written-IsFifo threads p q u sent taken at live same w own x y f =
      let written = get_elem?-set_self s.heap p u (get_elem?-lt s.heap p at) in
      set-IsFifo s.heap p q u at live same (λ d. ((w.good p u written).dead d).2)
        (λ r z g l k. v.unique p r q z at g live l (sym k)) s.sent s.taken sent taken own x y f

  -- One queue of the map is written, its items are not.
  kept-IsFifo :
      (threads : List Thread) (p : ℕ) (q u : Queue)
      → get_elem? s.heap p ≡ some q
      → q.live ≡ true
      → u.partition_key ≡ q.partition_key
      → u.items ≡ q.items
      → Invariant s.max_global s.max_per_key s.slots (set s.heap p u) threads
      → InOrder s
      → IsFifo (set s.heap p u) s.sent s.taken
  kept-IsFifo threads p q u at live same kept w f =
      let own : of_key u.partition_key s.sent ≡ of_key u.partition_key s.taken ++ u.items =
        rw same (rw kept (f.queued p q at live)) in
      written-IsFifo threads p q u s.sent s.taken at live same w own (λ k ne. refl) (λ k ne. refl) f

  register-IsFifo :
      (i : ℕ) (item : QueuedItem)
      → get_elem? s.threads i ≡ some (slotted item)
      → (o : Option ℕ) → find_queue s.heap (key_of item) ≡ o
      → InOrder s
      → IsFifo (register_at s.heap (key_of item) o).1 s.sent s.taken
  unfolding register_at
  register-IsFifo i item at none absent f =
      append-IsFifo s.heap (key_of item) s.sent s.taken absent f
  register-IsFifo i item at (some p) present f =
      let c = find_queue-eq-some s.heap (key_of item) p present in
      let w = register-IsValid s v i item at (some p) present in
      let e = update_queue-set s.heap p add_submitter c.at in
      let moved =
        subst
          (λ h.
            Invariant s.max_global s.max_per_key s.slots h (set s.threads i (registered p item)))
          e w in
      rw e (
        kept-IsFifo (set s.threads i (registered p item)) p c.q (add_submitter c.q) c.at c.live refl
          refl moved f)

  finish-IsFifo :
      (i p : ℕ) (item : QueuedItem)
      → get_elem? s.threads i ≡ some (working p item)
      → InOrder s
      → IsFifo (finish_event s.heap (key_of item)) s.sent s.taken
  finish-IsFifo i p item at f =
      let m =
        works-InMap s.max_global s.max_per_key s.slots s.heap s.threads v i p (working p item) at
          (bit_self p) in
      let e = finish_event-item s v i p item at m in
      let w = finish-IsValid s v i p item at in
      let moved =
        subst (λ h. Invariant s.max_global s.max_per_key s.slots h (set s.threads i releasing)) e
          w in
      rw e (
        kept-IsFifo (set s.threads i releasing) p m.q (finish_queue m.q) m.at m.live refl refl moved
          f)

-- The operations on a channel.
module _ (s : KeyQueue) (v : IsValid s) (p : ℕ) (item : QueuedItem) (q : Queue)
    (here : get_elem? s.heap p ≡ some q) (named : key_of item ≡ q.partition_key)
    (live : q.live ≡ true) where
  others : (xs : List QueuedItem) → SameButFor q.partition_key (xs ++ item ∷ []) xs
  others xs k ne = of_key-append_other k xs item (λ e. ne (sym e ∙ named))

  own :
      (xs : List QueuedItem)
      → of_key q.partition_key (xs ++ item ∷ []) ≡ of_key q.partition_key xs ++ item ∷ []
  own xs = of_key-append_same q.partition_key xs item named

  send-IsFifo :
      (threads : List Thread)
      → Invariant s.max_global s.max_per_key s.slots
          (set s.heap p (record q { items = q.items ++ item ∷ [] }))
          threads
      → InOrder s
      → IsFifo
          (set s.heap p (record q { items = q.items ++ item ∷ [] }))
          (s.sent ++ item ∷ [])
          s.taken
  send-IsFifo threads z f =
      let more : of_key q.partition_key (s.sent ++ item ∷ [])
          ≡ of_key q.partition_key s.taken ++ (q.items ++ item ∷ []) =
        own s.sent
        ∙ ap (λ l. l ++ item ∷ []) (f.queued p q here live)
        ∙ append_assoc (of_key q.partition_key s.taken) q.items (item ∷ []) in
      written-IsFifo s v threads p q (record q { items = q.items ++ item ∷ [] })
        (s.sent ++ item ∷ []) s.taken here live refl z more (others s.sent) (λ k ne. refl) f

  receive-IsFifo :
      (threads : List Thread) (rest : List QueuedItem)
      → q.items ≡ item ∷ rest
      → Invariant s.max_global s.max_per_key s.slots
          (set s.heap p (record q { items = rest }))
          threads
      → InOrder s
      → IsFifo (set s.heap p (record q { items = rest })) s.sent (s.taken ++ item ∷ [])
  receive-IsFifo threads rest h z f =
      let fewer : of_key q.partition_key s.sent
          ≡ of_key q.partition_key (s.taken ++ item ∷ []) ++ rest =
        f.queued p q here live
        ∙ ap (λ l. of_key q.partition_key s.taken ++ l) h
        ∙ sym (append_assoc (of_key q.partition_key s.taken) (item ∷ []) rest)
        ∙ sym (ap (λ l. l ++ rest) (own s.taken)) in
      written-IsFifo s v threads p q (record q { items = rest }) s.sent (s.taken ++ item ∷ []) here
        live refl z fewer (λ k ne. refl) (others s.taken) f

module _ (s : KeyQueue) (v : IsValid s) (f : InOrder s) (i p : ℕ) (q : Queue)
    (here : get_elem? s.heap p ≡ some q) where
  held-live : (a : Thread) → get_elem? s.threads i ≡ some a → holds p a ≡ 1 → q.live ≡ true
  held-live a at h =
      InMap-live s v p q here
        (holds-InMap s.max_global s.max_per_key s.slots s.heap s.threads v i p a at h)

  busy-live : (a : Thread) → get_elem? s.threads i ≡ some a → works p a ≡ 1 → q.live ≡ true
  busy-live a at h =
      InMap-live s v p q here
        (works-InMap s.max_global s.max_per_key s.slots s.heap s.threads v i p a at h)

Step-InOrder : (s t : KeyQueue) → Step s t → IsValid s → InOrder s → InOrder t
Step-InOrder s t (start n h) v f = f
Step-InOrder s t stop v f = f
Step-InOrder s t (exit_worker i at) v f = f
Step-InOrder s t (begin_submission item b c) v f = f
Step-InOrder s t (give_up i item at) v f = f
Step-InOrder s t (acquire_global_slot i item at room) v f = f
Step-InOrder s t (register i item at) v f =
    unfold register_queue_submitter in
    register-IsFifo s v i item at (find_queue s.heap (key_of item)) refl f
Step-InOrder s t (enqueue_item i p item q at found room) v f =
    let w = Step-IsValid s _ (enqueue_item i p item q at found room) v in
    send-IsFifo s v p item q found (sym (v.named i (registered p item) at q found))
      (held-live s v f i p q found (registered p item) at (bit_self p))
      (set s.threads i (leaving p)) w f
Step-InOrder s t (cancel_item i p item at) v f = f
Step-InOrder s t (release_submitter i p at) v f = f
Step-InOrder s t (leave i p q at found) v f =
    let w = Step-IsValid s _ (leave i p q at found) v in
    let live = held-live s v f i p q found (leaving p) at (bit_self p) in
    kept-IsFifo s v (set s.threads i finished) p q (finish_submit q) found live
      (unfold finish_submit in refl) (unfold finish_submit in refl) w f
Step-InOrder s t (next_event i p q at found h) v f =
    let w = Step-IsValid s _ (next_event i p q at found h) v in
    let live : q.live ≡ true = ground (arith, h) in
    kept-IsFifo s v (set s.threads i (selected p)) p q (select_queue q) found live refl refl w f
Step-InOrder s t (receive i p item rest q at found h) v f =
    let w = Step-IsValid s _ (receive i p item rest q at found h) v in
    let live = busy-live s v f i p q found (selected p) at (bit_self p) in
    let named : key_of item ≡ q.partition_key =
      (subst (AllOf q.partition_key) h (v.good p q found).keyed).0 in
    receive-IsFifo s v p item q found named live (set s.threads i (working p item)) rest h w f
Step-InOrder s t (finish i p item at) v f = finish-IsFifo s v i p item at f
Step-InOrder s t (release_worker i at) v f = f

pub Reach-InOrder : (s t : KeyQueue) → Reach s t → IsValid s → InOrder s → InOrder t
Reach-InOrder s t initially v f = f
Reach-InOrder s t (after {t = u} r h) v f =
    Step-InOrder u t h (Reach-IsValid s u r v) (Reach-InOrder s u r v f)
