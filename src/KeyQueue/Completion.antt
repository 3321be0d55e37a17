-- ===== src/KeyQueue/Completion.antt =====
-- `finishEvent` of internal/runtime/keyqueue/queue.go under the invariant: the queue that it finds by the key.
use kafka_simulate_rule.Prelude.{
  ap, ◌∙◌, refl, sum_of-ge, inr, zero, inl, suc, Option-cases, Bool-cases, ◌∷◌, true, arith, some,
  ◌≡◌, length, get_elem?, ◌<◌, List, ℕ,
}
use kafka_simulate_rule.KeyQueue.{
  [], finish_queue, set, find_queue, finish_at, finish_event, Thread, Queue,
}
use kafka_simulate_rule.KeyQueue.Invariant.{bit, holds, works, Invariant}
use kafka_simulate_rule.KeyQueue.Registration.{works-inside, holds-inside}
use kafka_simulate_rule.KeyQueue.Spawn.{find_queue-eq-some, find_queue-eq-none, update_queue-set}

get_elem?-some : (qs : List Queue) (p : ℕ) → p < length qs → (q : Queue) × (get_elem? qs p ≡ some q)
get_elem?-some [] p h = absurd (omega arith)
get_elem?-some (q ∷ qs) zero h = (q, refl)
get_elem?-some (q ∷ qs) (suc p) h = get_elem?-some qs p (omega arith)

-- The queue at a pointer, which is in the map.
pub record InMap (heap : List Queue) (p : ℕ) : Type 0 where
  pub q : Queue
  pub at : get_elem? heap p ≡ some q
  pub live : q.live ≡ true

module _ (max_global max_per_key slots : ℕ) (heap : List Queue) (threads : List Thread)
    (inv : Invariant max_global max_per_key slots heap threads) (j p : ℕ) (t : Thread)
    (at : get_elem? threads j ≡ some t) where
  pub works-InMap : works p t ≡ 1 → InMap heap p
  works-InMap w =
      let c =
        get_elem?-some heap p
          (works-inside max_global max_per_key slots heap threads inv j p t at w) in
      let g = inv.good p c.0 c.1 in
      record {
        q = c.0;
        at = c.1;
        live = elim (Bool-cases c.0.live) [
          | inl e ↦ e
          | inr e ↦
              let idle_queue : bit c.0.processing ≡ 0 = ap bit (g.dead e).1 in
              absurd (omega (arith, idle_queue, g.exclusive, sum_of-ge (works p) threads j at, w))
        ];
      }

  pub holds-InMap : holds p t ≡ 1 → InMap heap p
  holds-InMap w =
      let c =
        get_elem?-some heap p
          (holds-inside max_global max_per_key slots heap threads inv j p t at w) in
      let g = inv.good p c.0 c.1 in
      record {
        q = c.0;
        at = c.1;
        live = elim (Bool-cases c.0.live) [
          | inl e ↦ e
          | inr e ↦
              absurd
                (omega (arith, (g.dead e).0, g.submitters, sum_of-ge (holds p) threads j at, w))
        ];
      }

module _ (max_global max_per_key slots : ℕ) (heap : List Queue) (threads : List Thread)
    (inv : Invariant max_global max_per_key slots heap threads) where
  -- The map holds one queue of a key.
  pub find_queue-InMap :
      (p : ℕ) (q : Queue)
      → get_elem? heap p ≡ some q
      → q.live ≡ true
      → find_queue heap q.partition_key ≡ some p
  find_queue-InMap p q at live = elim (Option-cases (find_queue heap q.partition_key)) [
    | inl e ↦ absurd (find_queue-eq-none heap q.partition_key p q e at live refl)
    | inr e ↦
        let f = find_queue-eq-some heap q.partition_key e.0 e.1 in
        e.1 ∙ ap some (inv.unique e.0 p f.q q f.at at f.live live f.named)
  ]

  pub finish_event-eq :
      (p : ℕ) (q : Queue)
      → get_elem? heap p ≡ some q
      → q.live ≡ true
      → finish_event heap q.partition_key ≡ set heap p (finish_queue q)
  unfolding finish_event finish_at
  finish_event-eq p q at live =
      rw (find_queue-InMap p q at live) (update_queue-set heap p finish_queue at)
