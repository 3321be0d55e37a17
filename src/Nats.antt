-- ===== src/Nats.antt =====
-- internal/adapters/nats/jetstream.go: which consumers a fetch asks, for how many messages, and what it returns.
pub mod Budgets
pub mod Config
pub mod Consumers
pub mod Order
pub mod Selection
pub mod Window
pub mod Fairness
mod Tests
use Prim.Native.Nat.{min}
use kafka_simulate_rule.Prelude.{
  is_positive, pos_part, pos, ◌<>◌, length, str_eq, ◌||◌, ◌%◌, ltb, get_elem?, zero, not, ◌==◌, ◌+◌,
  ◌++◌, false, suc, none, if◌then◌else◌, [], ◌∷◌, Bool, ◌/◌, some, ◌∷◌, String, ℤ, Option, List, ℕ,
}
use kafka_simulate_rule.Batches.{text_le}
use kafka_simulate_rule.Domain.Errors.{message, GoError}

pub record ConsumerKey : Type 0 where
  pub base_subject : String
  pub rule_set : String
  pub shard : ℕ

-- `consumers` is a map to the durable names: each key is in it once.
pub record Consumer : Type 0 where
  pub consumers : List (ConsumerKey × String)
  pub subjects : List String
  pub rule_sets : List String
  pub fetch_cursor : ℕ

abbrev pub is_wanted : ℕ → List ℕ → Bool
is_wanted shard [] = false
is_wanted shard (x ∷ xs) = x == shard || is_wanted shard xs

-- `a < b` in the order of the keys.
unfoldable pub key_lt : ConsumerKey → ConsumerKey → Bool
unfolding text_le
key_lt a b =
    if not (a.shard == b.shard)
    then ltb a.shard b.shard
    else if not (str_eq a.base_subject b.base_subject)
    then not (text_le b.base_subject a.base_subject)
    else not (text_le b.rule_set a.rule_set)

-- `sort.Slice`: the keys are distinct, so any sort gives the same.
unfoldable pub insert_key : ConsumerKey → List ConsumerKey → List ConsumerKey
unfolding key_lt
insert_key k [] = k ∷ []
insert_key k (x ∷ xs) = let rest = insert_key k xs in if key_lt x k then x ∷ rest else k ∷ x ∷ xs

unfoldable pub matching_consumer_keys : List (ConsumerKey × String) → List ℕ → List ConsumerKey
unfolding insert_key
matching_consumer_keys [] wanted = []
matching_consumer_keys ((key, durable) ∷ consumers) wanted =
    let rest = matching_consumer_keys consumers wanted in
    if is_wanted key.shard wanted then insert_key key rest else rest

abbrev pub found_or {ℓ} : {A : Type ℓ} → Option A → List A → List A
found_or none rest = rest
found_or (some a) rest = a ∷ rest

-- `keys[(start+i)%len(keys)]` for each `i` below the count.
unfoldable pub window {ℓ} : {A : Type ℓ} → List A → ℕ → ℕ → List A
window keys start zero = []
window keys start (suc count) =
    found_or (get_elem? keys (start % length keys)) (window keys (suc start) count)

-- The keys that are selected, and the consumer with its new cursor.
unfoldable pub select_fetch_consumers : Consumer → ℕ → List ℕ → List ConsumerKey × Consumer
unfolding window matching_consumer_keys
select_fetch_consumers c max_messages shards =
    let keys = matching_consumer_keys c.consumers shards in
    let count = min (length keys) max_messages in
    let start = c.fetch_cursor % length keys in
    if length keys == 0
    then ([], c)
    else (window keys start count, record c { fetch_cursor = (start + count) % length keys })

-- What the `i`-th of the selected consumers is asked for.
abbrev pub budget_of : ℕ → ℕ → ℕ → ℕ
budget_of max_messages selected i =
    max_messages / selected + (if ltb i (max_messages % selected) then 1 else 0)

unfoldable pub budgets_from : ℕ → ℕ → ℕ → ℕ → List ℕ
budgets_from max_messages selected i zero = []
budgets_from max_messages selected i (suc n) =
    budget_of max_messages selected i ∷ budgets_from max_messages selected (suc i) n

unfoldable pub budgets : ℕ → ℕ → List ℕ
unfolding budgets_from
budgets max_messages selected = budgets_from max_messages selected 0 selected

-- The answers come in any order; an answer has deliveries, an error, or both.
pub record ShardFetchResult (D : Type 0) : Type 0 where
  pub deliveries : List D
  pub failure : Option GoError

abbrev pub errors_of : {D : Type 0} → List (ShardFetchResult D) → List GoError
errors_of [] = []
errors_of (r ∷ rs) = found_or r.failure (errors_of rs)

abbrev pub deliveries_of : {D : Type 0} → List (ShardFetchResult D) → List D
deliveries_of [] = []
deliveries_of (r ∷ rs) = r.deliveries ++ deliveries_of rs

-- The deliveries, and the errors that are joined.
unfoldable pub collect_fetch_results :
    {D : Type 0} → (ℤ → String) → List (ShardFetchResult D) → ℕ → List D × List GoError
collect_fetch_results itoa results max_messages =
    let deliveries = deliveries_of results in
    (
      deliveries,
      errors_of results
          ++ (if ltb max_messages (length deliveries)
              then message (
                  "fetch invariant violated: got "
                  <> (itoa (pos (length deliveries))
                      <> (" deliveries for limit " <> itoa (pos max_messages))))
                ∷ []
              else []),
    )

-- What the goroutines ask: each of the selected keys, for its share of the limit.
unfoldable pub requests_from : ℕ → ℕ → ℕ → List ConsumerKey → List (ConsumerKey × ℕ)
requests_from max_messages selected i [] = []
requests_from max_messages selected i (k ∷ keys) =
    (k, budget_of max_messages selected i) ∷ requests_from max_messages selected (suc i) keys

-- `none` is a nil context; of another, `ctx.Err()`.
unfoldable pub validate_fetch_request : Option (Option GoError) → ℤ → Option GoError
validate_fetch_request none max_messages =
    if is_positive max_messages
    then some (message "fetch shards: context is nil")
    else some (message "fetch shards: maxMessages must be > 0")
validate_fetch_request (some ctx_err) max_messages =
    if is_positive max_messages
    then ctx_err
    else some (message "fetch shards: maxMessages must be > 0")

-- The fetch of the keys that are selected. `ask` is the broker, which finds the durable
-- consumer of each key that the map names: the answers to the requests, in
-- the order in which they come.
unfoldable pub fetch_selected :
    {D : Type 0}
    → (ℤ → String)
    → (List (ConsumerKey × ℕ) → List (ShardFetchResult D))
    → ℕ
    → List ConsumerKey
    → List D × List GoError
unfolding requests_from collect_fetch_results
fetch_selected itoa ask max_messages [] = ([], [])
fetch_selected itoa ask max_messages (k ∷ keys) =
    collect_fetch_results itoa (ask (requests_from max_messages (suc (length keys)) 0 (k ∷ keys)))
      max_messages

abbrev pub fetch_valid :
    {D : Type 0}
    → (ℤ → String)
    → (List (ConsumerKey × ℕ) → List (ShardFetchResult D))
    → Option GoError
    → Consumer
    → ℕ
    → List ℕ
    → (List D × List GoError) × Consumer
fetch_valid itoa ask (some e) c max_messages shards = (([], e ∷ []), c)
fetch_valid itoa ask none c max_messages [] = (([], []), c)
fetch_valid itoa ask none c max_messages (s ∷ shards) =
    let selected = select_fetch_consumers c max_messages (s ∷ shards) in
    (fetch_selected itoa ask max_messages selected.0, selected.1)

-- `FetchShards`: the deliveries and the errors, and the consumer with its new cursor.
unfoldable pub fetch_shards :
    {D : Type 0}
    → (ℤ → String)
    → (List (ConsumerKey × ℕ) → List (ShardFetchResult D))
    → Option (Option GoError)
    → Consumer
    → ℤ
    → List ℕ
    → (List D × List GoError) × Consumer
unfolding fetch_selected select_fetch_consumers validate_fetch_request
fetch_shards itoa ask ctx c max_messages shards =
    fetch_valid itoa ask (validate_fetch_request ctx max_messages) c (pos_part max_messages) shards
