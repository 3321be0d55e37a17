-- ===== src/Nats/Tests.antt =====
-- The theorems about internal/adapters/nats/jetstream.go at a consumer of three keys.
use mathlib.Core.List.Perm
use Prim.Native.Char.{code}
use kafka_simulate_rule.Prelude.{
  some, inr, inl, ◌==◌, if◌then◌else◌, Bool-cases, negsuc, pos, String, zero, refl, ◌≡◌, suc, arith,
  [], ◌∷◌, ◌∷◌, List, none, ℕ,
}
use kafka_simulate_rule.Nats.Config.{Config, normalize_config}
use kafka_simulate_rule.Nats.Config.Normal.{IsNormal, refuses_rule_set}
use kafka_simulate_rule.Nats.Config.Fixed.{normalize_config-fixed}
use kafka_simulate_rule.Batches.{sort_texts}
use kafka_simulate_rule.Domain.Event.{bytes, is_empty}
use kafka_simulate_rule.Domain.Result.{ok}
use kafka_simulate_rule.Nats.Consumers.{Broker}
use kafka_simulate_rule.Nats.{
  fetch_shards, ConsumerKey, Consumer, ShardFetchResult, select_fetch_consumers,
}
use kafka_simulate_rule.Nats.Budgets.{FetchAnswer, fetch_shards-limit, Keeps, arrives, settled}
use kafka_simulate_rule.Nats.Fairness.{rounds-IsIn, rounds}
use kafka_simulate_rule.Nats.Window.{IsIn}

abbrev plain_key : ℕ → ConsumerKey
plain_key shard = record { base_subject = "events"; rule_set = ""; shard = shard }

abbrev orders_key : ConsumerKey
orders_key = record { base_subject = "events"; rule_set = "orders"; shard = 1 }

-- The keys are out of order, and the cursor stands at the last.
abbrev three_keys : Consumer
three_keys = record {
  consumers = (orders_key, "c") ∷ (plain_key 2, "d") ∷ (plain_key 1, "b") ∷ [];
  subjects = "events" ∷ [];
  rule_sets = "orders" ∷ [];
  fetch_cursor = 5;
}

-- Two of the three are asked, and the cursor goes on behind them.
two_of_three :
    select_fetch_consumers three_keys 2 (1 ∷ 2 ∷ [])
    ≡ (plain_key 2 ∷ plain_key 1 ∷ [], record three_keys { fetch_cursor = 1 })
unfolding select_fetch_consumers
two_of_three = refl

-- The same map in another order.
abbrev other_order : List (ConsumerKey × String)
other_order = (plain_key 2, "d") ∷ (orders_key, "c") ∷ (plain_key 1, "b") ∷ []

rounds-IsIn_example :
    IsIn orders_key (rounds (three_keys.consumers ∷ other_order ∷ []) three_keys 2 (1 ∷ 2 ∷ []))
rounds-IsIn_example =
    rounds-IsIn (three_keys.consumers ∷ other_order ∷ []) three_keys 2 (1 ∷ 2 ∷ []) orders_key "c"
      (Perm.refl three_keys.consumers, (Perm.swap _ _ _, tt)) (0, refl) (0, refl) (omega arith)

-- A broker with one message for each request that asks for any.
one_each : List (ConsumerKey × ℕ) → List (ShardFetchResult ConsumerKey)
one_each [] = []
one_each ((k, zero) ∷ rest) = record { deliveries = []; failure = none } ∷ one_each rest
one_each ((k, suc n) ∷ rest) = record { deliveries = k ∷ []; failure = none } ∷ one_each rest

one_each-Keeps : Keeps one_each
unfolding one_each
one_each-Keeps [] = settled
one_each-Keeps ((k, zero) ∷ rest) = arrives [] _ 0 refl (omega arith) (one_each-Keeps rest)
one_each-Keeps ((k, suc n) ∷ rest) = arrives [] _ (suc n) refl (omega arith) (one_each-Keeps rest)

fetch_shards-limit_example :
    FetchAnswer one_each
      (λ n. (select_fetch_consumers three_keys n (1 ∷ 2 ∷ [])).0)
      (some none)
      (pos 5)
      (fetch_shards (λ n. "") one_each (some none) three_keys (pos 5) (1 ∷ 2 ∷ [])).0
fetch_shards-limit_example =
    fetch_shards-limit (λ n. "") one_each (some none) three_keys (pos 5) (1 ∷ 2 ∷ []) one_each-Keeps

-- `strings.TrimSpace` for the spaces in front.
strip : String → String
strip String.[] = ""
strip (String.◌∷◌ c s) = let rest = strip s in if code c == 32 then rest else String.◌∷◌ c s

strip_idem : (text : String) → strip (strip text) ≡ strip text
unfolding strip
strip_idem String.[] = refl
strip_idem (String.◌∷◌ c s) = elim (Bool-cases (code c == 32)) [
  | inl e ↦ rw e (strip_idem s)
  | inr e ↦ rw e (rw e refl)
]

-- A subject that comes twice, rule sets out of order, and nothing else.
abbrev sparse : Config
sparse = record {
  nats_url = "nats://broker";
  connect_timeout = pos 0;
  stream = "";
  consumer = "";
  subjects = " events" ∷ "events" ∷ "alerts" ∷ [];
  rule_sets = "orders" ∷ " fraud" ∷ [];
  ack_wait = pos 0;
  max_deliver = pos 0;
  num_shards = 0;
}

abbrev filled : Config
filled = record {
  nats_url = "nats://broker";
  connect_timeout = pos 0;
  stream = "flowrule";
  consumer = "flowrule-worker";
  subjects = "events" ∷ "alerts" ∷ [];
  rule_sets = "fraud" ∷ "orders" ∷ [];
  ack_wait = pos 30000000000;
  max_deliver = negsuc 0;
  num_shards = 4096;
}

normalize_config-fixed_example :
    (normalize_config strip (λ t. t) filled ≡ ok filled)
    × IsNormal strip is_empty [] filled.subjects
    × IsNormal strip refuses_rule_set [] filled.rule_sets
unfolding normalize_config strip bytes sort_texts
normalize_config-fixed_example = normalize_config-fixed strip (λ t. t) sparse filled strip_idem refl

abbrev willing : Broker
willing = record {
  create_consumer = λ durable filter. none;
  token = λ rule_set. rule_set;
  cut = λ n text. text;
  utoa = λ n. "1";
  quote = λ text. text;
}

-- One of the two consumers of the first shard is there.
abbrev half : Consumer
half = record three_keys { consumers = (plain_key 1, "b") ∷ [] }

abbrev whole : Consumer
whole = record three_keys {
  consumers = (orders_key, "flow-events-rs-orders-shard-1") ∷ (plain_key 1, "b") ∷ [];
}
