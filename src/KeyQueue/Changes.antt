-- ===== src/KeyQueue/Changes.antt =====
-- Changes of one goroutine, and of one queue with it, keep the invariant of internal/runtime/keyqueue/queue.go.
use kafka_simulate_rule.Prelude.{
  length-set, get_elem?-lt, refl, ◌∙◌, get_elem?-append_old, sum_of-set, ap, inr, subst, arith, sym,
  inl, ◌≤◌, ◌∷◌, get_elem?-set_cases, ◌++◌, ◌+◌, true, length, some, ◌<◌, ◌≡◌, String, get_elem?, ℕ,
  List,
}
use kafka_simulate_rule.KeyQueue.{
  finished, releasing, idle, selected, leaving, cancelling, slotted, waiting, working, [], key_of,
  registered, set, Thread, Queue,
}
use kafka_simulate_rule.KeyQueue.Invariant.{
  Elsewhere-fresh, Local-IsGood, Elsewhere-IsGood, IsGood, has_slot, HasKey, Elsewhere, IsNamed,
  Local, Invariant,
}

HasKey-set :
    (heap : List Queue) (p r : ℕ) (q u : Queue) (key : String)
    → get_elem? heap p ≡ some q
    → u.partition_key ≡ q.partition_key
    → HasKey heap r key
    → HasKey (set heap p u) r key
HasKey-set heap p r q u key at same h v g = elim (get_elem?-set_cases heap p r u g) [
  | inl e ↦
      let here : get_elem? heap r ≡ some q = subst (λ k. get_elem? heap k ≡ some q) e.0 at in
      sym (ap (λ (z : Queue). z.partition_key) e.1) ∙ same ∙ h q here
  | inr e ↦ h v e.1
]

pub HasKey-append :
    (heap : List Queue) (r : ℕ) (u : Queue) (key : String)
    → r < length heap
    → HasKey heap r key
    → HasKey (heap ++ u ∷ []) r key
HasKey-append heap r u key l h v g = h v (sym (get_elem?-append_old heap (u ∷ []) r l) ∙ g)

IsNamed-set :
    (heap : List Queue) (p : ℕ) (q u : Queue) (t : Thread)
    → get_elem? heap p ≡ some q
    → u.partition_key ≡ q.partition_key
    → IsNamed heap t
    → IsNamed (set heap p u) t
IsNamed-set heap p q u (registered r item) at same h =
    HasKey-set heap p r q u (key_of item) at same h
IsNamed-set heap p q u (working r item) at same h = HasKey-set heap p r q u (key_of item) at same h
IsNamed-set heap p q u (waiting item) at same h = tt
IsNamed-set heap p q u (slotted item) at same h = tt
IsNamed-set heap p q u (cancelling r) at same h = tt
IsNamed-set heap p q u (leaving r) at same h = tt
IsNamed-set heap p q u idle at same h = tt
IsNamed-set heap p q u (selected r) at same h = tt
IsNamed-set heap p q u releasing at same h = tt
IsNamed-set heap p q u finished at same h = tt

pub IsNamed-set_thread :
    (heap : List Queue) (threads : List Thread) (i : ℕ) (b : Thread)
    → ((j : ℕ) (t : Thread) → get_elem? threads j ≡ some t → IsNamed heap t)
    → IsNamed heap b
    → (j : ℕ) (t : Thread) → get_elem? (set threads i b) j ≡ some t
    → IsNamed heap t
IsNamed-set_thread heap threads i b named h j t g = elim (get_elem?-set_cases threads i j b g) [
  | inl e ↦ subst (IsNamed heap) e.1 h
  | inr e ↦ named j t e.1
]

-- Two queues of one list, one of them written: each is an old one of the same key that was live if it is live.
record Older (heap : List Queue) (p : ℕ) (q : Queue) : Type 0 where
  old : Queue
  at : get_elem? heap p ≡ some old
  key : q.partition_key ≡ old.partition_key
  live : q.live ≡ true → old.live ≡ true

older :
    (heap : List Queue) (p r : ℕ) (q u v : Queue)
    → get_elem? heap p ≡ some q
    → u.partition_key ≡ q.partition_key
    → (u.live ≡ true → q.live ≡ true)
    → get_elem? (set heap p u) r ≡ some v
    → Older heap r v
older heap p r q u v at same stays g = elim (get_elem?-set_cases heap p r u g) [
  | inl e ↦ record {
    old = q;
    at = subst (λ k. get_elem? heap k ≡ some q) e.0 at;
    key = sym (ap (λ (z : Queue). z.partition_key) e.1) ∙ same;
    live = λ l. stays (ap (λ (z : Queue). z.live) e.1 ∙ l);
  }
  | inr e ↦ record { old = v; at = e.1; key = refl; live = λ l. l }
]

module _ (max_global max_per_key slots : ℕ) (heap : List Queue) (threads : List Thread)
    (inv : Invariant max_global max_per_key slots heap threads) (i : ℕ) (a b : Thread)
    (at : get_elem? threads i ≡ some a) where
  -- A goroutine goes on, and the slots change with it.
  pub goto-Invariant :
      (slots' : ℕ)
      → ((r : ℕ) → Elsewhere r a b)
      → IsNamed heap b
      → slots' + has_slot a ≡ slots + has_slot b
      → slots' ≤ max_global
      → Invariant max_global max_per_key slots' heap (set threads i b)
  goto-Invariant slots' e n c l = record {
    accounted = omega (arith, sum_of-set has_slot threads i b at, inv.accounted, c);
    limited = l;
    good = λ r q g. Elsewhere-IsGood max_per_key threads i a b at r q (e r) (inv.good r q g);
    fresh = λ r h. Elsewhere-fresh max_per_key threads i a b at r (e r) (inv.fresh r h);
    unique = inv.unique;
    named = IsNamed-set_thread heap threads i b inv.named n;
  }

  -- A goroutine goes on and changes one queue.
  pub change-Invariant :
      (slots' p : ℕ) (q u : Queue)
      → get_elem? heap p ≡ some q
      → Local max_per_key p a b q u
      → IsNamed heap b
      → slots' + length q.items + has_slot a ≡ slots + length u.items + has_slot b
      → slots' ≤ max_global
      → Invariant max_global max_per_key slots' (set heap p u) (set threads i b)
  change-Invariant slots' p q u here l n c lim = record {
    accounted = omega (
      arith,
      sum_of-set has_slot threads i b at,
      sum_of-set (λ (z : Queue). length z.items) heap p u here,
      inv.accounted,
      c,
    );
    limited = lim;
    good = λ r v g. elim (get_elem?-set_cases heap p r u g) [
      | inl e ↦
          let moved : IsGood max_per_key (set threads i b) p u =
            Local-IsGood max_per_key threads i a b at p q u l (inv.good p q here) in
          subst (λ k. IsGood max_per_key (set threads i b) k v) e.0
            (subst (IsGood max_per_key (set threads i b) p) e.1 moved)
      | inr e ↦
          Elsewhere-IsGood max_per_key threads i a b at r v (l.elsewhere r (λ z. e.0 (sym z)))
            (inv.good r v e.1)
    ];
    fresh = λ r h.
        let bound = get_elem?-lt heap p here in
        let same = length-set heap p u in
        Elsewhere-fresh max_per_key threads i a b at r
          (l.elsewhere r (λ z. omega (arith, z, bound, same, h)))
          (inv.fresh r (omega (arith, h, same)));
    unique = λ r s v w g h lv lw k.
        let x = older heap p r q u v here l.same_key l.stays g in
        let y = older heap p s q u w here l.same_key l.stays h in
        inv.unique r s x.old y.old x.at y.at (x.live lv) (y.live lw) (sym x.key ∙ k ∙ y.key);
    named =
        IsNamed-set_thread (set heap p u) threads i b
          (λ j t g. IsNamed-set heap p q u t here l.same_key (inv.named j t g))
          (IsNamed-set heap p q u b here l.same_key n);
  }
