-- ===== src/KeyQueue/Order.antt =====
-- The order of the items of one key in internal/runtime/keyqueue/queue.go.
use kafka_simulate_rule.Prelude.{
  get_elem?-append_old, get_elem?-set_ne, ap, append-nil, get_elem?-lt, ◌∙◌, sym,
  get_elem?-set_self, subst, ℕ_discrete, get_elem?-set_cases, eq_iff, inr, true,
  get_elem?-append_cases, inl, arith, str_eq, some, none, ◌++◌, if◌then◌else◌, Bool-cases,
  get_elem?, ◌≢◌, ◌∷◌, ◌⊎◌, ℕ, ◌≡◌, List, String,
}
use kafka_simulate_rule.KeyQueue.{set, false, new_queue, [], find_queue, key_of, QueuedItem, Queue}
use kafka_simulate_rule.KeyQueue.Spawn.{find_queue-eq-none}

abbrev pub of_key : String → List QueuedItem → List QueuedItem
of_key key [] = []
of_key key (x ∷ xs) = if str_eq (key_of x) key then x ∷ of_key key xs else of_key key xs

pub of_key-append_same :
    (key : String) (xs : List QueuedItem) (x : QueuedItem)
    → key_of x ≡ key
    → of_key key (xs ++ x ∷ []) ≡ of_key key xs ++ x ∷ []
of_key-append_same key [] x e = ground (arith, e, eq_iff (key_of x) key)
of_key-append_same key (y ∷ ys) x e = ground (arith, of_key-append_same key ys x e)

pub of_key-append_other :
    (key : String) (xs : List QueuedItem) (x : QueuedItem)
    → key_of x ≢ key
    → of_key key (xs ++ x ∷ []) ≡ of_key key xs
of_key-append_other key [] x ne = ground (arith, ne, eq_iff (key_of x) key)
of_key-append_other key (y ∷ ys) x ne = ground (arith, of_key-append_other key ys x ne)

text-discrete : (a b : String) → (a ≡ b) ⊎ (a ≢ b)
text-discrete a b = elim (Bool-cases (str_eq a b)) [
  | inl e ↦ inl (ground (arith, e, eq_iff a b))
  | inr e ↦ inr (λ h. ground (arith, e, h, eq_iff a b))
]

-- No queue of the map is of the key.
abbrev pub Absent : List Queue → String → Type 0
Absent heap key =
    (p : ℕ) (q : Queue) → get_elem? heap p ≡ some q → q.live ≡ true → q.partition_key ≢ key

-- What was sent under a key was received, or is in the queue of the key.
pub record IsFifo (heap : List Queue) (sent taken : List QueuedItem) : Type 0 where
  pub queued :
      (p : ℕ) (q : Queue)
      → get_elem? heap p ≡ some q
      → q.live ≡ true
      → of_key q.partition_key sent ≡ of_key q.partition_key taken ++ q.items
  pub drained : (key : String) → Absent heap key → of_key key sent ≡ of_key key taken

abbrev pub SameButFor : String → List QueuedItem → List QueuedItem → Type 0
SameButFor key xs ys = (k : String) → k ≢ key → of_key k xs ≡ of_key k ys

-- One queue of the map is written, and items of its key are sent or received.
module _ (heap : List Queue) (p : ℕ) (q u : Queue) (at : get_elem? heap p ≡ some q)
    (live : q.live ≡ true) (same : u.partition_key ≡ q.partition_key)
    (empty : u.live ≡ false → u.items ≡ []) where
  module _
      (unique : (r : ℕ) (v : Queue)
        → get_elem? heap r ≡ some v
        → v.live ≡ true
        → v.partition_key ≡ q.partition_key
        → p ≡ r)
      (sent taken sent' taken' : List QueuedItem) where
    Absent-before :
        (key : String) → Absent (set heap p u) key → q.partition_key ≢ key → Absent heap key
    Absent-before key absent other r v g l = elim (ℕ_discrete p r) [
      | yes e ↦
          let both : some q ≡ some v = sym at ∙ subst (λ k. get_elem? heap k ≡ some v) (sym e) g in
          let one : q ≡ v = cc both in λ h. other (ap (λ (z : Queue). z.partition_key) one ∙ h)
      | no ne ↦ absent r v (get_elem?-set_ne heap u ne ∙ g) l
    ]

    written-at : get_elem? (set heap p u) p ≡ some u
    written-at = get_elem?-set_self heap p u (get_elem?-lt heap p at)

    pub set-IsFifo :
        of_key u.partition_key sent' ≡ of_key u.partition_key taken' ++ u.items
        → SameButFor q.partition_key sent' sent
        → SameButFor q.partition_key taken' taken
        → IsFifo heap sent taken
        → IsFifo (set heap p u) sent' taken'
    set-IsFifo own s t f = record {
      queued = λ r v g l. elim (get_elem?-set_cases heap p r u g) [
        | inl e ↦
            subst
              (λ (z : Queue).
                of_key z.partition_key sent' ≡ of_key z.partition_key taken' ++ z.items)
              e.1 own
        | inr e ↦
            let other : v.partition_key ≢ q.partition_key = λ k. e.0 (unique r v e.1 l k) in
            s v.partition_key other
            ∙ f.queued r v e.1 l
            ∙ ap (λ l. l ++ v.items) (sym (t v.partition_key other))
      ];
      drained = λ key absent. elim (text-discrete key q.partition_key) [
        | inl e ↦ elim (Bool-cases u.live) [
          | inl l ↦ absurd (absent p u written-at l (same ∙ sym e))
          | inr d ↦
              let own_key : u.partition_key ≡ key = same ∙ sym e in
              let none_left : of_key u.partition_key sent' ≡ of_key u.partition_key taken' =
                own
                ∙ ap (λ l. of_key u.partition_key taken' ++ l) (empty d)
                ∙ append-nil (of_key u.partition_key taken') in
              subst (λ k. of_key k sent' ≡ of_key k taken') own_key none_left
        ]
        | inr ne ↦
            s key ne ∙ f.drained key (Absent-before key absent (λ h. ne (sym h))) ∙ sym (t key ne)
      ];
    }

-- A new queue is empty.
pub append-IsFifo :
    (heap : List Queue) (key : String) (sent taken : List QueuedItem)
    → find_queue heap key ≡ none
    → IsFifo heap sent taken
    → IsFifo (heap ++ new_queue key ∷ []) sent taken
append-IsFifo heap key sent taken absent f = record {
  queued = λ r v g l. elim (get_elem?-append_cases heap (new_queue key) r g) [
    | inl e ↦ f.queued r v e l
    | inr e ↦
        let old : of_key key sent ≡ of_key key taken =
          f.drained key (λ p q at live. find_queue-eq-none heap key p q absent at live) in
        subst (λ (z : Queue). of_key z.partition_key sent ≡ of_key z.partition_key taken ++ z.items)
          e.1 (old ∙ sym (append-nil (of_key key taken)))
  ];
  drained = λ k none_left. f.drained k (λ p q at live.
      none_left p q (get_elem?-append_old heap (new_queue key ∷ []) p (get_elem?-lt heap p at) ∙ at)
        live);
}
