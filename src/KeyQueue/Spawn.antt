-- ===== src/KeyQueue/Spawn.antt =====
-- The lookup of a queue, new goroutines and new queues in internal/runtime/keyqueue/queue.go.
use kafka_simulate_rule.KeyQueue.{
  idle, workers, Thread, [], set, false, is_queue_of, later, Queue, find_queue, update_queue,
}
use kafka_simulate_rule.Prelude.{
  get_elem?-append_cases, sum_of-append, append_assoc, append-nil, ◌++◌, sym, subst, inr, zero, inl,
  Bool-cases, ap, eq_iff, ◌∷◌, refl, ◌≢◌, arith, suc, true, none, some, get_elem?, ◌≡◌, ℕ, List,
  String, Option,
}
use kafka_simulate_rule.KeyQueue.Invariant.{
  selects, works, holds, IsNamed, has_slot, Elsewhere, Invariant,
}

pub update_queue-set :
    (qs : List Queue) (p : ℕ) (f : Queue → Queue) {q : Queue}
    → get_elem? qs p ≡ some q
    → update_queue qs p f ≡ set qs p (f q)
unfolding update_queue
update_queue-set [] p f h = cc
update_queue-set (x ∷ xs) zero f {q = q} h = let same : x ≡ q = cc in ap (λ t. f t ∷ xs) same
update_queue-set (x ∷ xs) (suc p) f h = ap (λ t. x ∷ t) (update_queue-set xs p f h)

-- What the map holds under a key.
pub record Found (qs : List Queue) (key : String) (p : ℕ) : Type 0 where
  pub q : Queue
  pub at : get_elem? qs p ≡ some q
  pub live : q.live ≡ true
  pub named : q.partition_key ≡ key

later-eq-none : (o : Option ℕ) → later o ≡ none → o ≡ none
later-eq-none none h = refl
later-eq-none (some p) h = cc h

later-eq-some : (o : Option ℕ) (p : ℕ) → later o ≡ some p → (n : ℕ) × (p ≡ suc n) × (o ≡ some n)
later-eq-some none p h = cc h
later-eq-some (some n) p h = (n, cc h, refl)

is_queue_of-eq-true :
    (key : String) (q : Queue)
    → is_queue_of key q ≡ true
    → (q.live ≡ true) × (q.partition_key ≡ key)
is_queue_of-eq-true key q h =
    (ground (arith, h, eq_iff q.partition_key key), ground (arith, h, eq_iff q.partition_key key))

is_queue_of-eq-false :
    (key : String) (q : Queue) → is_queue_of key q ≡ false → q.live ≡ true → q.partition_key ≢ key
is_queue_of-eq-false key q h l e = ground (arith, h, l, e, eq_iff q.partition_key key)

pub find_queue-eq-some :
    (qs : List Queue) (key : String) (p : ℕ) → find_queue qs key ≡ some p → Found qs key p
unfolding find_queue
find_queue-eq-some [] key p h = cc h
find_queue-eq-some (q ∷ qs) key p h = elim (Bool-cases (is_queue_of key q)) [
  | inl e ↦
      let at : ◌≡◌ {A = Option ℕ} (some 0) (some p) = ground (arith, e, h) in
      let zeroth : ◌≡◌ {A = ℕ} 0 p = cc at in
      let both = is_queue_of-eq-true key q e in
      subst (Found (q ∷ qs) key) zeroth (record { q = q; at = refl; live = both.0; named = both.1 })
  | inr e ↦
      let at : later (find_queue qs key) ≡ some p = ground (arith, e, h) in
      let r = later-eq-some (find_queue qs key) p at in
      let f = find_queue-eq-some qs key r.0 r.2 in
      subst (Found (q ∷ qs) key) (sym r.1)
        (record { q = f.q; at = f.at; live = f.live; named = f.named })
]

pub find_queue-eq-none :
    (qs : List Queue) (key : String) (p : ℕ) (q : Queue)
    → find_queue qs key ≡ none
    → get_elem? qs p ≡ some q
    → q.live ≡ true
    → q.partition_key ≢ key
unfolding find_queue
find_queue-eq-none [] key p q h at l = cc at
find_queue-eq-none (x ∷ xs) key zero q h at l = elim (Bool-cases (is_queue_of key x)) [
  | inl e ↦ absurd (ground (arith, e, h))
  | inr e ↦
      let same : x ≡ q = cc at in
      is_queue_of-eq-false key q (subst (λ y. is_queue_of key y ≡ false) same e) l
]
find_queue-eq-none (x ∷ xs) key (suc p) q h at l = elim (Bool-cases (is_queue_of key x)) [
  | inl e ↦ absurd (ground (arith, e, h))
  | inr e ↦
      let rest : later (find_queue xs key) ≡ none = ground (arith, e, h) in
      find_queue-eq-none xs key p q (later-eq-none (find_queue xs key) rest) at l
]

-- Goroutines that count for no queue.
module _ (max_global max_per_key slots : ℕ) (heap : List Queue) where
  pub spawn-Invariant :
      (threads : List Thread) (t : Thread)
      → Invariant max_global max_per_key slots heap threads
      → ((r : ℕ) → Elsewhere r t idle)
      → has_slot t ≡ 0
      → IsNamed heap t
      → Invariant max_global max_per_key slots heap (threads ++ t ∷ [])
  spawn-Invariant threads t inv e h n = record {
    accounted = omega (arith, sum_of-append has_slot threads (t ∷ []), inv.accounted, h);
    limited = inv.limited;
    good = λ r q g.
        let old = inv.good r q g in
        let x = e r in
        record {
          submitters =
              omega (arith, old.submitters, sum_of-append (holds r) threads (t ∷ []), x.holding);
          exclusive =
              omega (arith, old.exclusive, sum_of-append (works r) threads (t ∷ []), x.work);
          ready = omega (arith, old.ready, sum_of-append (selects r) threads (t ∷ []), x.selection);
          dead = old.dead;
          bounded = old.bounded;
          keyed = old.keyed;
        };
    fresh = λ r b.
        let old = inv.fresh r b in
        let x = e r in
        (
          omega (arith, old.0, sum_of-append (holds r) threads (t ∷ []), x.holding),
          omega (arith, old.1, sum_of-append (works r) threads (t ∷ []), x.work),
        );
    unique = inv.unique;
    named = λ i u g. elim (get_elem?-append_cases threads t i g) [
      | inl o ↦ inv.named i u o
      | inr o ↦ subst (IsNamed heap) o.1 n
    ];
  }

  pub workers-Invariant :
      (n : ℕ) (threads : List Thread)
      → Invariant max_global max_per_key slots heap threads
      → Invariant max_global max_per_key slots heap (threads ++ workers n)
  workers-Invariant zero threads inv =
      subst (Invariant max_global max_per_key slots heap) (sym (append-nil threads)) inv
  workers-Invariant (suc n) threads inv =
      let one =
        spawn-Invariant threads idle inv
          (λ r. record { holding = refl; work = refl; selection = refl }) refl tt in
      subst (Invariant max_global max_per_key slots heap)
        (append_assoc threads (idle ∷ []) (workers n))
        (workers-Invariant n (threads ++ idle ∷ []) one)
