-- ===== src/Nats/Consumers/Complete.antt =====
-- A shard whose consumers `EnsureShardConsumer` of internal/adapters/nats/jetstream.go has made.
use kafka_simulate_rule.Prelude.{◌==◌, ◌&&◌, [], ◌∷◌, ◌||◌, false, List, String, Bool, ℕ}
use kafka_simulate_rule.Nats.Config.{contains}
use kafka_simulate_rule.Nats.{ConsumerKey}
use kafka_simulate_rule.Nats.Consumers.{same_key}

abbrev pub in_keys : List ConsumerKey → ConsumerKey → Bool
in_keys [] key = false
in_keys (k ∷ keys) key = same_key k key || in_keys keys key

-- The keys that a shard is to have.
abbrev pub is_due : List String → List String → ℕ → ConsumerKey → Bool
is_due subjects rule_sets shard k =
    shard == k.shard && (contains subjects k.base_subject && contains ("" ∷ rule_sets) k.rule_set)
