-- ===== src/KeyQueue/Registration.antt =====
-- `registerQueueSubmitter` and `finishEvent` of internal/runtime/keyqueue/queue.go under the invariant.
use kafka_simulate_rule.Prelude.{
  sum_of-ge, ◌≤◌, ltb, length-append, Bool-cases, ◌∙◌, sum_of-append, subst, true, ◌<◌, ap, inr,
  get_elem?-lt, sum_of-le, inl, get_elem?-append_cases, refl, sym, sum_of-set, ◌∷◌, ◌++◌, length,
  none, some, get_elem?, arith, ◌≡◌, ◌==◌, ◌≢◌, List, ℕ,
}
use kafka_simulate_rule.KeyQueue.Invariant.{
  Elsewhere-fresh, Elsewhere-IsGood, has_slot, IsNamed, selects-le-works, selects, works, holds,
  Elsewhere, HasKey, IsGood, Invariant, bit,
}
use kafka_simulate_rule.KeyQueue.{
  finished, releasing, idle, selected, leaving, cancelling, waiting, working, [], set, new_queue,
  registered, key_of, find_queue, slotted, QueuedItem, Thread, Queue,
}
use kafka_simulate_rule.KeyQueue.Spawn.{find_queue-eq-none}
use kafka_simulate_rule.KeyQueue.Changes.{HasKey-append, IsNamed-set_thread}

pub bit_self : (p : ℕ) → bit (p == p) ≡ 1
bit_self p = ground arith

pub bit_ne : (r p : ℕ) → r ≢ p → bit (r == p) ≡ 0
bit_ne r p h = ground (arith, h)

module _ (max_global max_per_key slots : ℕ) (heap : List Queue) (threads : List Thread)
    (inv : Invariant max_global max_per_key slots heap threads) where
  -- A pointer that a goroutine holds points to a queue.
  pub holds-inside :
      (j p : ℕ) (t : Thread) → get_elem? threads j ≡ some t → holds p t ≡ 1 → p < length heap
  holds-inside j p t g h = elim (Bool-cases (ltb p (length heap))) [
    | inl e ↦ ground (arith, e)
    | inr e ↦
        let outside : length heap ≤ p = ground (arith, e) in
        absurd (omega (arith, (inv.fresh p outside).0, sum_of-ge (holds p) threads j g, h))
  ]

  pub works-inside :
      (j p : ℕ) (t : Thread) → get_elem? threads j ≡ some t → works p t ≡ 1 → p < length heap
  works-inside j p t g h = elim (Bool-cases (ltb p (length heap))) [
    | inl e ↦ ground (arith, e)
    | inr e ↦
        let outside : length heap ≤ p = ground (arith, e) in
        absurd (omega (arith, (inv.fresh p outside).1, sum_of-ge (works p) threads j g, h))
  ]

  abbrev PointsInside : Thread → Type 0
  PointsInside (registered p item) = p < length heap
  PointsInside (working p item) = p < length heap
  PointsInside _ = Unit

  points_inside : (j : ℕ) (t : Thread) → get_elem? threads j ≡ some t → PointsInside t
  points_inside j (registered p item) g = holds-inside j p (registered p item) g (bit_self p)
  points_inside j (working p item) g = works-inside j p (working p item) g (bit_self p)
  points_inside j (waiting x) g = tt
  points_inside j (slotted x) g = tt
  points_inside j (cancelling r) g = tt
  points_inside j (leaving r) g = tt
  points_inside j idle g = tt
  points_inside j (selected r) g = tt
  points_inside j releasing g = tt
  points_inside j finished g = tt

  module _ (i : ℕ) (item : QueuedItem) (at : get_elem? threads i ≡ some (slotted item))
      (absent : find_queue heap (key_of item) ≡ none) where
    abbrev made : Queue
    made = new_queue (key_of item)

    abbrev next : Thread
    next = registered (length heap) item

    new-Elsewhere :
        (r : ℕ) → r ≢ length heap → Elsewhere r (slotted item) (registered (length heap) item)
    new-Elsewhere r ne = record {
      holding = sym (bit_ne r (length heap) ne);
      work = refl;
      selection = refl;
    }

    new-IsGood : IsGood max_per_key (set threads i next) (length heap) made
    new-IsGood =
        let f = inv.fresh (length heap) (omega arith) in
        let p = length heap in
        let h = sum_of-set (holds p) threads i next at in
        let w = sum_of-set (works p) threads i next at in
        let e = sum_of-set (selects p) threads i next at in
        let le = sum_of-le (selects p) (works p) threads (selects-le-works p) in
        record {
          submitters = omega (arith, f.0, h, bit_self (length heap));
          exclusive = omega (arith, f.1, w);
          ready = omega (arith, f.1, le, e);
          dead = λ d. cc d;
          bounded = omega arith;
          keyed = tt;
        }

    new-HasKey : HasKey (heap ++ made ∷ []) (length heap) (key_of item)
    new-HasKey q g = elim (get_elem?-append_cases heap (new_queue (key_of item)) (length heap) g) [
      | inl o ↦ absurd (omega (arith, get_elem?-lt heap (length heap) o))
      | inr o ↦ sym (ap (λ (z : Queue). z.partition_key) o.1)
    ]

    registered-IsGood :
        (r : ℕ) (q : Queue)
        → get_elem? (heap ++ made ∷ []) r ≡ some q
        → IsGood max_per_key (set threads i next) r q
    registered-IsGood r q g = elim (get_elem?-append_cases heap made r g) [
      | inl o ↦
          let bound = get_elem?-lt heap r o in
          Elsewhere-IsGood max_per_key threads i (slotted item) next at r q
            (new-Elsewhere r (λ e. omega (arith, e, bound))) (inv.good r q o)
      | inr o ↦
          subst (λ k. IsGood max_per_key (set threads i next) k q) (sym o.0)
            (subst (IsGood max_per_key (set threads i next) (length heap)) o.1 new-IsGood)
    ]

    other_key :
        (r : ℕ) (q : Queue)
        → get_elem? heap r ≡ some q
        → q.live ≡ true
        → q.partition_key ≢ key_of item
    other_key r q g l = find_queue-eq-none heap (key_of item) r q absent g l

    new_unique :
        (r s : ℕ) (v w : Queue)
        → get_elem? (heap ++ made ∷ []) r ≡ some v
        → get_elem? (heap ++ made ∷ []) s ≡ some w
        → v.live ≡ true
        → w.live ≡ true
        → v.partition_key ≡ w.partition_key
        → r ≡ s
    new_unique r s v w g h lv lw k = elim (get_elem?-append_cases heap made r g) [
      | inl x ↦ elim (get_elem?-append_cases heap made s h) [
        | inl y ↦ inv.unique r s v w x y lv lw k
        | inr y ↦ absurd (other_key r v x lv (k ∙ sym (ap (λ (z : Queue). z.partition_key) y.1)))
      ]
      | inr x ↦ elim (get_elem?-append_cases heap made s h) [
        | inl y ↦
            absurd (other_key s w y lw (sym k ∙ sym (ap (λ (z : Queue). z.partition_key) x.1)))
        | inr y ↦ x.0 ∙ sym y.0
      ]
    ]

    IsNamed-append : (t : Thread) → PointsInside t → IsNamed heap t → IsNamed (heap ++ made ∷ []) t
    IsNamed-append (registered r x) b n = HasKey-append heap r made (key_of x) b n
    IsNamed-append (working r x) b n = HasKey-append heap r made (key_of x) b n
    IsNamed-append (waiting x) b n = tt
    IsNamed-append (slotted x) b n = tt
    IsNamed-append (cancelling r) b n = tt
    IsNamed-append (leaving r) b n = tt
    IsNamed-append idle b n = tt
    IsNamed-append (selected r) b n = tt
    IsNamed-append releasing b n = tt
    IsNamed-append finished b n = tt

    pub register_new-Invariant :
        Invariant max_global max_per_key slots (heap ++ made ∷ []) (set threads i next)
    register_new-Invariant = record {
      accounted = omega (
        arith,
        sum_of-set has_slot threads i next at,
        sum_of-append (λ (z : Queue). length z.items) heap (made ∷ []),
        inv.accounted,
      );
      limited = inv.limited;
      good = registered-IsGood;
      fresh = λ r b.
          let longer = length-append heap (made ∷ []) in
          Elsewhere-fresh max_per_key threads i (slotted item) next at r
            (new-Elsewhere r (λ e. omega (arith, e, b, longer)))
            (inv.fresh r (omega (arith, b, longer)));
      unique = new_unique;
      named =
          IsNamed-set_thread (heap ++ made ∷ []) threads i next
            (λ j t g. IsNamed-append t (points_inside j t g) (inv.named j t g)) new-HasKey;
    }
