-- ===== src/Delivery/Sharding.antt =====
-- internal/application/worker_sharding.go: the consumers of the broker follow the shards that the worker
-- owns. A set of shards is a list, read by membership; the answers of the broker are those of this pass.
pub mod Laws
mod Tests
use kafka_simulate_rule.Prelude.{
  ◌||◌, none, [], ◌==◌, some, false, if◌then◌else◌, ◌++◌, Bool, Option, ◌∷◌, ℕ, List,
}
use kafka_simulate_rule.Domain.Errors.{GoError}

pub data Act : Type 0 where
  removing : ℕ → Act
  ensuring : ℕ → Act

-- `none` is a nil error.
pub record Consumers : Type 0 where
  pub remove_shard_consumer : ℕ → Option GoError
  pub ensure_shard_consumer : ℕ → Option GoError

-- `_, ok := set[shard]`
unfoldable pub member : ℕ → List ℕ → Bool
member shard [] = false
member shard (k ∷ ks) = k == shard || member shard ks

-- `delete(set, shard)`
unfoldable pub without : ℕ → List ℕ → List ℕ
without shard [] = []
without shard (k ∷ ks) = let rest = without shard ks in if k == shard then rest else k ∷ rest

unfoldable pub after_remove : ℕ → Option GoError → List ℕ → List ℕ
unfolding without
after_remove shard (some e) active_set = active_set
after_remove shard none active_set = without shard active_set

module _ (c : Consumers) where
  -- The calls, and the active shards that are left.
  unfoldable pub remove_unowned_shard_consumers : List ℕ → List ℕ → List ℕ → List Act × List ℕ
  unfolding member after_remove
  remove_unowned_shard_consumers [] owned active_set = ([], active_set)
  remove_unowned_shard_consumers (shard ∷ active) owned active_set =
      let kept = member shard owned in
      let next =
        if kept
        then active_set
        else after_remove shard (c.remove_shard_consumer shard) active_set in
      let (acts, left) = remove_unowned_shard_consumers active owned next in
      (if kept then acts else removing shard ∷ acts, left)

  -- An error is only logged: the next pass tries again.
  unfoldable pub ensure_owned_shard_consumers : List ℕ → List ℕ → List Act
  unfolding member
  ensure_owned_shard_consumers [] active_set = []
  ensure_owned_shard_consumers (shard ∷ owned) active_set =
      let acts = ensure_owned_shard_consumers owned active_set in
      if member shard active_set then acts else ensuring shard ∷ acts

  -- `owned` are the worker's shards, `active` those that have a consumer.
  unfoldable pub sync_consumers : List ℕ → List ℕ → List Act
  unfolding remove_unowned_shard_consumers ensure_owned_shard_consumers
  sync_consumers owned active =
      let (acts, left) = remove_unowned_shard_consumers active owned active in
      acts ++ ensure_owned_shard_consumers owned left
