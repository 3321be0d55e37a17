-- ===== src/KeyQueue/HotKeys/Laws.antt =====
-- What `updateHotKeyState` of internal/runtime/keyqueue/queue.go tracks and reports.
use kafka_simulate_rule.Domain.Event.{Time}
use kafka_simulate_rule.Prelude.{
  append_assoc, All-imp, not, append-nil, sym, ◌&&◌, ◌++◌, true, ap, ◌∙◌, inr, subst, inl, str_eq,
  eq_refl, refl, eq_iff, Bool-cases, All, arith, ◌∷◌, leb, if◌then◌else◌, none, ◌≡◌, some, ◌≢◌,
  AllPairs, String, Option, List, ℕ,
}
use kafka_simulate_rule.KeyQueue.HotKeys.{
  HotKeyNotice, update_hot_key_state, mark, is_some, visit_queue, HotState, keep_existing,
  visit_queues, delete, lookup,
}
use kafka_simulate_rule.KeyQueue.{false, []}

abbrev pub HasDistinctKeys : List (String × ℕ) → Type 0
HasDistinctKeys qs = AllPairs (λ (a b : String × ℕ). a.0 ≢ b.0) qs

lookup-delete_same {ℓ} :
    {A : Type ℓ} (key : String) (m : List (String × A)) → lookup key (delete key m) ≡ none
unfolding lookup delete
lookup-delete_same key [] = refl
lookup-delete_same key ((k, a) ∷ m) = ground (arith, lookup-delete_same key m)

lookup-delete_other {ℓ} :
    {A : Type ℓ} (key other : String) (m : List (String × A))
    → other ≢ key
    → lookup key (delete other m) ≡ lookup key m
unfolding lookup delete
lookup-delete_other key other [] ne = refl
lookup-delete_other key other ((k, a) ∷ m) ne =
    ground (arith, lookup-delete_other key other m ne, ne, eq_iff k other, eq_iff k key)

abbrev pub since_or : Time → Option Time → Time
since_or now none = now
since_or now (some since) = since

-- What is tracked of a key whose queue has this length, or that has no queue.
abbrev pub tracked : ℕ → Time → Option ℕ → Option Time → Option Time
tracked threshold now none since = none
tracked threshold now (some depth) since =
    if leb threshold depth then some (since_or now since) else none

-- Until the queues that are gone are dropped, a key without a queue keeps its entry.
abbrev visited : ℕ → Time → Option ℕ → Option Time → Option Time
visited threshold now none since = since
visited threshold now (some depth) since = tracked threshold now (some depth) since

tracked-visited :
    (threshold : ℕ) (now : Time) (depth : Option ℕ) (since : Option Time)
    → (if is_some depth then visited threshold now depth since else none)
      ≡ tracked threshold now depth since
tracked-visited threshold now none since = refl
tracked-visited threshold now (some d) since = refl

mark-lookup :
    (key : String) (depth : ℕ) (now : Time) (o : Option Time) (s : HotState)
    → lookup key s.0 ≡ o
    → lookup key (mark key depth now o s).0 ≡ some (since_or now o)
unfolding lookup
mark-lookup key depth now none s h = ground (arith, eq_refl key)
mark-lookup key depth now (some since) s h = h

mark-lookup_other :
    (key other : String) (depth : ℕ) (now : Time) (o : Option Time) (s : HotState)
    → other ≢ key
    → lookup key (mark other depth now o s).0 ≡ lookup key s.0
unfolding lookup
mark-lookup_other key other depth now none s ne = ground (arith, ne, eq_iff other key)
mark-lookup_other key other depth now (some since) s ne = refl

visit_queue-lookup :
    (threshold : ℕ) (now : Time) (key : String) (depth : ℕ) (s : HotState)
    → lookup key (visit_queue threshold now (key, depth) s).0
      ≡ tracked threshold now (some depth) (lookup key s.0)
unfolding visit_queue
visit_queue-lookup threshold now key depth s = elim (Bool-cases (leb threshold depth)) [
  | inl e ↦ rw e (mark-lookup key depth now (lookup key s.0) s refl)
  | inr e ↦ rw e (lookup-delete_same key s.0)
]

visit_queue-lookup_other :
    (threshold : ℕ) (now : Time) (key other : String) (depth : ℕ) (s : HotState)
    → other ≢ key
    → lookup key (visit_queue threshold now (other, depth) s).0 ≡ lookup key s.0
unfolding visit_queue
visit_queue-lookup_other threshold now key other depth s ne =
    elim (Bool-cases (leb threshold depth)) [
      | inl e ↦ rw e (mark-lookup_other key other depth now (lookup other s.0) s ne)
      | inr e ↦ rw e (lookup-delete_other key other s.0 ne)
    ]

lookup-absent :
    (key : String) (qs : List (String × ℕ))
    → All (λ (q : String × ℕ). key ≢ q.0) qs
    → lookup key qs ≡ none
unfolding lookup
lookup-absent key [] h = refl
lookup-absent key ((k, d) ∷ qs) h = ground (arith, lookup-absent key qs h.1, h.0, eq_iff k key)

visit_queues-lookup :
    (threshold : ℕ) (now : Time) (key : String) (qs : List (String × ℕ)) (s : HotState)
    → HasDistinctKeys qs
    → lookup key (visit_queues threshold now qs s).0
      ≡ visited threshold now (lookup key qs) (lookup key s.0)
unfolding visit_queues lookup
visit_queues-lookup threshold now key [] s h = refl
visit_queues-lookup threshold now key ((k, d) ∷ qs) s h = elim (Bool-cases (str_eq k key)) [
  | inl e ↦
      let same : k ≡ key = ground (arith, e, eq_iff k key) in
      let gone : lookup key qs ≡ none =
        subst (λ z. lookup z qs ≡ none) same (lookup-absent k qs h.0) in
      let rest =
        visit_queues-lookup threshold now key qs (visit_queue threshold now (k, d) s) h.1 in
      let now_tracked : lookup key (visit_queue threshold now (k, d) s).0
          ≡ tracked threshold now (some d) (lookup key s.0) =
        subst
          (λ z.
            lookup z (visit_queue threshold now (k, d) s).0
            ≡ tracked threshold now (some d) (lookup z s.0))
          same (visit_queue-lookup threshold now k d s) in
      rw e (
        rest
        ∙ ap (λ o. visited threshold now o (lookup key (visit_queue threshold now (k, d) s).0)) gone
        ∙ now_tracked)
  | inr e ↦
      let other : k ≢ key = λ z. ground (arith, e, z, eq_iff k key) in
      let rest =
        visit_queues-lookup threshold now key qs (visit_queue threshold now (k, d) s) h.1 in
      rw e (
        rest
        ∙ ap (λ o. visited threshold now (lookup key qs) o)
            (visit_queue-lookup_other threshold now key k d s other))
]

keep_existing-lookup :
    (key : String) (queues : List (String × ℕ)) (hot : List (String × Time))
    → lookup key (keep_existing queues hot)
      ≡ (if is_some (lookup key queues) then lookup key hot else none)
unfolding keep_existing
keep_existing-lookup key queues [] = unfold lookup in ground arith
keep_existing-lookup key queues ((k, since) ∷ hot) =
    let ih = keep_existing-lookup key queues hot in
    elim (Bool-cases (str_eq k key)) [
      | inl e ↦
          let same : k ≡ key = ground (arith, e, eq_iff k key) in
          elim (Bool-cases (is_some (lookup k queues))) [
            | inl f ↦
                let g : is_some (lookup key queues) ≡ true =
                  subst (λ z. is_some (lookup z queues) ≡ true) same f in
                rw f (rw g (rw e refl))
            | inr f ↦
                let g : is_some (lookup key queues) ≡ false =
                  subst (λ z. is_some (lookup z queues) ≡ false) same f in
                rw f (ih ∙ rw g refl)
          ]
      | inr e ↦ elim (Bool-cases (is_some (lookup k queues))) [
        | inl f ↦ rw f (rw e ih)
        | inr f ↦ rw f (rw e ih)
      ]
    ]

-- The queues that `updateHotKeyState` reports.
abbrev pub newly_hot : ℕ → List (String × Time) → List (String × ℕ) → List HotKeyNotice
newly_hot threshold hot [] = []
newly_hot threshold hot ((key, depth) ∷ qs) =
    if leb threshold depth && not (is_some (lookup key hot))
    then record { key = key; depth = depth } ∷ newly_hot threshold hot qs
    else newly_hot threshold hot qs

newly_hot-same :
    (threshold : ℕ) (a b : List (String × Time)) (qs : List (String × ℕ))
    → All (λ (q : String × ℕ). lookup q.0 a ≡ lookup q.0 b) qs
    → newly_hot threshold a qs ≡ newly_hot threshold b qs
newly_hot-same threshold a b [] h = refl
newly_hot-same threshold a b ((k, d) ∷ qs) h =
    rw h.0 (rw (newly_hot-same threshold a b qs h.1) refl)

mark-notices :
    (key : String) (depth : ℕ) (now : Time) (o : Option Time) (s : HotState)
    (rest : List HotKeyNotice)
    → (mark key depth now o s).1 ++ rest
      ≡ s.1 ++ (if not (is_some o) then record { key = key; depth = depth } ∷ rest else rest)
mark-notices key depth now none s rest =
    append_assoc s.1 (record { key = key; depth = depth } ∷ []) rest
mark-notices key depth now (some since) s rest = refl

visit_queue-notices :
    (threshold : ℕ) (now : Time) (key : String) (depth : ℕ) (s : HotState)
    (rest : List HotKeyNotice)
    → (visit_queue threshold now (key, depth) s).1 ++ rest
      ≡ s.1
        ++ (if leb threshold depth && not (is_some (lookup key s.0))
            then record { key = key; depth = depth } ∷ rest
            else rest)
unfolding visit_queue
visit_queue-notices threshold now key depth s rest = elim (Bool-cases (leb threshold depth)) [
  | inl e ↦ rw e (mark-notices key depth now (lookup key s.0) s rest)
  | inr e ↦ rw e refl
]

visit_queues-notices :
    (threshold : ℕ) (now : Time) (qs : List (String × ℕ)) (s : HotState)
    → HasDistinctKeys qs
    → (visit_queues threshold now qs s).1 ≡ s.1 ++ newly_hot threshold s.0 qs
unfolding visit_queues
visit_queues-notices threshold now [] s h = sym (append-nil s.1)
visit_queues-notices threshold now ((k, d) ∷ qs) s h =
    let next = visit_queue threshold now (k, d) s in
    let unchanged : newly_hot threshold next.0 qs ≡ newly_hot threshold s.0 qs =
      newly_hot-same threshold next.0 s.0 qs (
        All-imp qs (λ (q : String × ℕ) ne. visit_queue-lookup_other threshold now q.0 k d s ne)
          h.0) in
    visit_queues-notices threshold now qs next h.1
    ∙ ap (λ l. next.1 ++ l) unchanged
    ∙ visit_queue-notices threshold now k d s (newly_hot threshold s.0 qs)

-- For a snapshot with one entry for each key, whatever the order in which the maps are visited: afterwards a
-- key is tracked exactly if it has a queue that is as long as the threshold, since the time at which it was
-- tracked first or else since now; and the callbacks are made for the keys that were not tracked before, once
-- for each, in the order of the visit.
pub update_hot_key_state-tracked :
    (threshold : ℕ) (queues : List (String × ℕ)) (now : Time) (hot : List (String × Time))
    → HasDistinctKeys queues
    → ((key : String)
        → lookup key (update_hot_key_state threshold queues now hot).0
          ≡ tracked threshold now (lookup key queues) (lookup key hot))
      × ((update_hot_key_state threshold queues now hot).1 ≡ newly_hot threshold hot queues)
unfolding update_hot_key_state
update_hot_key_state-tracked threshold queues now hot h = (
  λ key.
      keep_existing-lookup key queues (visit_queues threshold now queues (hot, [])).0
      ∙ ap (λ o. if is_some (lookup key queues) then o else none)
          (visit_queues-lookup threshold now key queues (hot, []) h)
      ∙ tracked-visited threshold now (lookup key queues) (lookup key hot),
  visit_queues-notices threshold now queues (hot, []) h,
)
