-- ===== src/Nats/Fairness.antt =====
-- The fetches of internal/adapters/nats/jetstream.go go round all consumers, and share out the whole budget.
use kafka_simulate_rule.Nats.Window.{
  IsIn, total, total-mul, next, window-IsIn, window-append, reach,
}
use kafka_simulate_rule.Prelude.{
  All-imp, Perm, All, if_both, subst, if◌then◌else◌, ◌∷◌, String, true, ◌==◌, [], inr, sym, ◌≤◌,
  inl, ◌*◌, Bool-cases, refl, zero, ap, suc, ◌∙◌, arith, ◌+◌, get_elem?-lt, length, ◌≡◌, get_elem?,
  ◌%◌, ◌<◌, ℕ, ◌++◌, List,
}
use native.Mathlib.Nat.{mod-lt}
use kafka_simulate_rule.Nats.Selection.{matching_consumer_keys-perm}
use kafka_simulate_rule.Nats.{
  is_wanted, insert_key, key_lt, window, Consumer, ConsumerKey, select_fetch_consumers,
  matching_consumer_keys,
}
use Prim.Native.Nat.{min}

-- The keys that fetches with the same limit and the same shards ask; for each fetch, `orders` has the entries of
-- the map in the order in which Go ranges over them.
unfoldable pub rounds :
    List (List (ConsumerKey × String)) → Consumer → ℕ → List ℕ → List ConsumerKey
rounds [] c max_messages shards = []
rounds (entries ∷ orders) c max_messages shards =
    let step = select_fetch_consumers (record c { consumers = entries }) max_messages shards in
    step.0 ++ rounds orders step.1 max_messages shards

rounds-window :
    (keys : List ConsumerKey) (orders : List (List (ConsumerKey × String))) (c : Consumer)
    (max_messages : ℕ) (shards : List ℕ)
    → All (λ entries. matching_consumer_keys entries shards ≡ keys) orders
    → 0 < length keys
    → rounds orders c max_messages shards
      ≡ window keys
          (c.fetch_cursor % length keys)
          (total (length orders) (min (length keys) max_messages))
unfolding rounds select_fetch_consumers window
rounds-window keys [] c max_messages shards h l = refl
rounds-window keys (entries ∷ orders) c max_messages shards h l =
    elim (Bool-cases (length keys == 0)) [
      | inl e ↦ absurd (ground (arith, e, l))
      | inr e ↦
          let start = c.fetch_cursor % length keys in
          let count = min (length keys) max_messages in
          rw (h.0, e)
            (ap (λ l. window keys start count ++ l)
                (rounds-window keys orders
                    (record c { consumers = entries; fetch_cursor = (start + count) % length keys })
                    max_messages shards h.1 l
                  ∙ next keys c.fetch_cursor count (total (length orders) count))
              ∙ window-append keys start count (total (length orders) count))
    ]

lt_total : {p n total rounds : ℕ} → p < n → n ≤ rounds → total ≡ rounds → p < total
lt_total l enough same = grind (arith, l, enough, same)

-- The number of entries of the wanted shards.
abbrev pub wanted_entries : List (ConsumerKey × String) → List ℕ → ℕ
wanted_entries [] shards = 0
wanted_entries ((k, durable) ∷ entries) shards =
    (if is_wanted k.shard shards then 1 else 0) + wanted_entries entries shards

insert_key-length :
    (k : ConsumerKey) (xs : List ConsumerKey) → length (insert_key k xs) ≡ suc (length xs)
unfolding insert_key
insert_key-length k [] = refl
insert_key-length k (x ∷ xs) = elim (Bool-cases (key_lt x k)) [
  | inl e ↦ rw e (ap suc (insert_key-length k xs))
  | inr e ↦ rw e refl
]

matching-length :
    (entries : List (ConsumerKey × String)) (shards : List ℕ)
    → length (matching_consumer_keys entries shards) ≡ wanted_entries entries shards
unfolding matching_consumer_keys
matching-length [] shards = refl
matching-length ((k, durable) ∷ entries) shards = elim (Bool-cases (is_wanted k.shard shards)) [
  | inl e ↦ rw e (
      insert_key-length k (matching_consumer_keys entries shards)
      ∙ ap suc (matching-length entries shards)
      ∙ omega arith)
  | inr e ↦ rw e (matching-length entries shards ∙ omega arith)
]

insert_key-IsIn : (k : ConsumerKey) (xs : List ConsumerKey) → IsIn k (insert_key k xs)
unfolding insert_key
insert_key-IsIn k [] = (0, refl)
insert_key-IsIn k (x ∷ xs) =
    let rest = insert_key-IsIn k xs in if_both (IsIn k) (key_lt x k) (suc rest.0, rest.1) (0, refl)

insert_key-IsIn_old :
    (k x : ConsumerKey) (xs : List ConsumerKey) → IsIn k xs → IsIn k (insert_key x xs)
unfolding insert_key
insert_key-IsIn_old k x [] h = cc (h.1)
insert_key-IsIn_old k x (y ∷ ys) (zero, h) = if_both (IsIn k) (key_lt y x) (0, h) (1, h)
insert_key-IsIn_old k x (y ∷ ys) (suc p, h) =
    let rest = insert_key-IsIn_old k x ys (p, h) in
    if_both (IsIn k) (key_lt y x) (suc rest.0, rest.1) (suc (suc p), h)

matching-IsIn :
    (entries : List (ConsumerKey × String)) (shards : List ℕ) (k : ConsumerKey) (durable : String)
    → IsIn (k, durable) entries
    → is_wanted k.shard shards ≡ true
    → IsIn k (matching_consumer_keys entries shards)
unfolding matching_consumer_keys
matching-IsIn [] shards k durable h w = cc (h.1)
matching-IsIn ((x, d) ∷ entries) shards k durable (zero, h) w =
    let same : (x, d) ≡ (k, durable) = cc h in
    let wanted : is_wanted x.shard shards ≡ true =
      ap (λ (p : ConsumerKey × String). is_wanted p.0.shard shards) same ∙ w in
    rw wanted (
      subst (λ y. IsIn y (insert_key x (matching_consumer_keys entries shards)))
        (ap (λ (p : ConsumerKey × String). p.0) same)
        (insert_key-IsIn x (matching_consumer_keys entries shards)))
matching-IsIn ((x, d) ∷ entries) shards k durable (suc p, h) w =
    let rest = matching-IsIn entries shards k durable (p, h) w in
    if_both (IsIn k) (is_wanted x.shard shards)
      (insert_key-IsIn_old k x (matching_consumer_keys entries shards) rest) rest

is_wanted-IsIn : (shards : List ℕ) (n : ℕ) → IsIn n shards → is_wanted n shards ≡ true
is_wanted-IsIn [] n h = cc (h.1)
is_wanted-IsIn (x ∷ shards) n (zero, h) = let same : x ≡ n = cc h in ground (arith, same)
is_wanted-IsIn (x ∷ shards) n (suc p, h) =
    let rest = is_wanted-IsIn shards n (p, h) in ground (arith, rest)

-- Round after round, every consumer of a wanted shard is asked, in whatever orders Go ranges over the map in the
-- fetches: as soon as the slots of the fetches, each of at most the limit, are as many as the
-- consumers of the wanted shards.
pub rounds-IsIn :
    (orders : List (List (ConsumerKey × String))) (c : Consumer) (max_messages : ℕ)
    (shards : List ℕ) (k : ConsumerKey) (durable : String)
    → All (λ entries. Perm entries c.consumers) orders
    → IsIn (k, durable) c.consumers
    → IsIn k.shard shards
    → wanted_entries c.consumers shards
      ≤ length orders * min (wanted_entries c.consumers shards) max_messages
    → IsIn k (rounds orders c max_messages shards)
rounds-IsIn orders c max_messages shards k durable perms here wanted enough =
    let keys = matching_consumer_keys c.consumers shards in
    let (i, h) =
      matching-IsIn c.consumers shards k durable here (is_wanted-IsIn shards k.shard wanted) in
    let count = min (length keys) max_messages in
    let l : i < length keys = get_elem?-lt keys i h in
    let same =
      All-imp orders (λ entries p. matching_consumer_keys-perm shards entries c.consumers p)
        perms in
    let slots : length keys ≤ length orders * count =
      subst (λ n. n ≤ length orders * min n max_messages) (sym (matching-length c.consumers shards))
        enough in
    let met =
      reach keys (c.fetch_cursor % length keys) i (mod-lt c.fetch_cursor (omega (arith, l))) l in
    rw (rounds-window keys orders c max_messages shards same (omega (arith, l))) (
      window-IsIn keys (c.fetch_cursor % length keys) (total (length orders) count) met.0 k
        (lt_total met.1 slots (total-mul (length orders) count)) (ap (get_elem? keys) met.2 ∙ h))
