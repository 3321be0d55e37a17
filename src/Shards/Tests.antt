-- ===== src/Shards/Tests.antt =====
-- The theorems on internal/runtime/shard/lease.go for a concrete worker.
use kafka_simulate_rule.Prelude.{
  inr, inl, refl, ◌≡◌, Option, map, none, arith, ◌<◌, [], ◌-◌, pos, ◌==◌, ◌*◌, ◌∷◌, if◌then◌else◌,
  some, ◌≤◌, ℕ,
}
use kafka_simulate_rule.Shards.{
  apply_batch_renewals, find_lease, is_owner, put_lease, after_acquire, acquire_shard, try_acquire,
  acquire_needed, ShardLease, target_owned_shards, rebalance_if_needed, LeaseManager, Owned,
}
use kafka_simulate_rule.Domain.Result.{ok, err}
use kafka_simulate_rule.Domain.Errors.{lease_owned_by_other, sentinel}
use kafka_simulate_rule.Shards.Target.{target_owned_shards-covers}
use kafka_simulate_rule.Shards.Renewal.{apply_batch_renewals-IsStale}

abbrev lease_of : ℕ → ShardLease
lease_of shard = record {
  virtual_shard = shard;
  owner = "w";
  fencing_token = pos 1;
  expires_at = 30;
  routing_epoch = pos 0;
}

-- Ten shards on three workers: each aims at four leases. Another worker holds shard 2.
abbrev worker : LeaseManager
worker = record {
  owner = "w";
  num_shards = 10;
  replica_count = 3;
  acquire = λ shard.
      if shard == 2 then err (sentinel lease_owned_by_other) else ok (some (lease_of shard));
  release = λ shard. none;
  renew = λ shard token. ok (some (lease_of shard));
}

abbrev two_leases : Owned
two_leases = (0, some (lease_of 0)) ∷ (1, some (lease_of 1)) ∷ []

-- Shard 2 is skipped.
rebalanced :
    map (λ (o : ℕ × Option ShardLease). o.0) (rebalance_if_needed worker two_leases)
    ≡ 0 ∷ 1 ∷ 3 ∷ 4 ∷ []
unfolding rebalance_if_needed acquire_needed try_acquire acquire_shard after_acquire put_lease
    is_owner find_lease target_owned_shards
rebalanced = refl

target_owned_shards-covers_example :
    (10 ≤ target_owned_shards worker * 3) × ((target_owned_shards worker - 1) * 3 < 10)
target_owned_shards-covers_example = target_owned_shards-covers worker (omega arith) (omega arith)

-- The lease of shard 1 was acquired anew, under token 1, after the batch was made with token 0.
apply_batch_renewals-IsStale_example :
    find_lease (apply_batch_renewals ((0, pos 1) ∷ (1, pos 0) ∷ []) [] two_leases) 1
    ≡ some (some (lease_of 1))
unfolding find_lease
apply_batch_renewals-IsStale_example =
    apply_batch_renewals-IsStale ((0, pos 1) ∷ (1, pos 0) ∷ []) [] two_leases 1
      (some (some (lease_of 1))) refl (inl (omega arith), (inr refl, tt))
