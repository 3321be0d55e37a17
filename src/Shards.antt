-- ===== src/Shards.antt =====
-- internal/runtime/shard/lease.go: the leases of a worker. The repository's answers are those of the
-- operation at hand. The map of owned shards is an association list, with each key once; locks, logs and
-- the timer of the renewal loop are left out.
pub mod Target
pub mod Renewal
mod Tests
pub mod Shrinking
pub mod Growing
pub mod Progress
pub mod Rebalance
use kafka_simulate_rule.Prelude.{
  str_eq, ◌&&◌, ltb_ℤ, true, leb, ◌+◌, ◌||◌, zero, not, ◌-◌, false, ◌%◌, length, [], ◌==◌, suc, ◌∷◌,
  ltb, none, ◌∷◌, some, ◌/◌, Bool, String, ℤ, ℕ, if◌then◌else◌, Option, List,
}
use kafka_simulate_rule.Domain.Errors.{
  sentinel, lease_owned_by_other, fencing_token_mismatch, message, lease_expired, GoError,
  errors_is,
}
use kafka_simulate_rule.Domain.Event.{Time}
use kafka_simulate_rule.Domain.Result.{ok, err, Result}

pub record ShardLease : Type 0 where
  pub virtual_shard : ℕ
  pub owner : String
  pub fencing_token : ℤ
  pub expires_at : Time
  pub routing_epoch : ℤ

-- A lease that is `none` is a nil pointer.
abbrev pub Owned : Type 0
Owned = List (ℕ × Option ShardLease)

abbrev pub Tokens : Type 0
Tokens = List (ℕ × ℤ)

pub record LeaseManager : Type 0 where
  pub owner : String
  pub num_shards : ℕ
  pub replica_count : ℕ
  pub acquire : ℕ → Result (Option ShardLease)
  pub release : ℕ → Option GoError
  pub renew : ℕ → ℤ → Result (Option ShardLease)

-- `m.ownedShards[shard]` with its `ok`.
unfoldable pub find_lease {ℓ} : {A : Type ℓ} → List (ℕ × A) → ℕ → Option A
find_lease [] shard = none
find_lease (o ∷ os) shard =
    let rest = find_lease os shard in if o.0 == shard then some o.1 else rest

-- `m.ownedShards[shard] = lease`
unfoldable pub put_lease : Owned → ℕ → Option ShardLease → Owned
put_lease [] shard lease = (shard, lease) ∷ []
put_lease (o ∷ os) shard lease =
    let rest = put_lease os shard lease in if o.0 == shard then (shard, lease) ∷ os else o ∷ rest

-- `delete(m.ownedShards, shard)`
unfoldable pub delete_lease : Owned → ℕ → Owned
delete_lease [] shard = []
delete_lease (o ∷ os) shard =
    let rest = delete_lease os shard in if o.0 == shard then os else o ∷ rest

abbrev pub is_some {ℓ} : {A : Type ℓ} → Option A → Bool
is_some none = false
is_some (some a) = true

unfoldable pub is_owner : Owned → ℕ → Bool
unfolding find_lease
is_owner os shard = is_some (find_lease os shard)

-- A nil lease would be a run-time panic in the source; here it has no token.
abbrev pub token_of : Option (Option ShardLease) → Option ℤ
token_of none = none
token_of (some none) = none
token_of (some (some lease)) = some lease.fencing_token

unfoldable pub get_fencing_token : Owned → ℕ → Option ℤ
unfolding find_lease
get_fencing_token os shard = token_of (find_lease os shard)

-- The shards that have a lease, with its token.
unfoldable pub owned_lease_tokens : Owned → Tokens
owned_lease_tokens [] = []
owned_lease_tokens ((shard, none) ∷ os) = owned_lease_tokens os
owned_lease_tokens ((shard, some lease) ∷ os) = (shard, lease.fencing_token) ∷ owned_lease_tokens os

-- One shard of `applyBatchRenewals`: it was renewed, or it was lost, unless its lease is another by now.
unfoldable pub apply_renewal : ℕ → Option (Option ShardLease) → Owned → Owned
unfolding put_lease delete_lease
apply_renewal shard none os = delete_lease os shard
apply_renewal shard (some lease) os = put_lease os shard lease

abbrev pub is_token : ℤ → Option ℤ → Bool
is_token token none = false
is_token token (some t) = not (ltb_ℤ t token) && not (ltb_ℤ token t)

unfoldable pub apply_batch_renewals : Tokens → Owned → Owned → Owned
unfolding get_fencing_token apply_renewal find_lease
apply_batch_renewals [] renewed os = os
apply_batch_renewals ((shard, token) ∷ ts) renewed os =
    let next =
      if is_token token (get_fencing_token os shard)
      then apply_renewal shard (find_lease renewed shard) os
      else os in
    apply_batch_renewals ts renewed next

-- The errors that say that a lease is lost.
unfoldable pub is_lost : GoError → Bool
unfolding errors_is
is_lost e =
    errors_is e lease_expired
    || (errors_is e fencing_token_mismatch || errors_is e lease_owned_by_other)

unfoldable pub after_renew : ℕ → Result (Option ShardLease) → Owned → Owned
unfolding delete_lease put_lease is_lost
after_renew shard (err e) os = if is_lost e then delete_lease os shard else os
after_renew shard (ok none) os = os
after_renew shard (ok (some lease)) os = put_lease os shard (some lease)

module _ (m : LeaseManager) where
  unfoldable pub renew_owned_individually : Tokens → Owned → Owned
  unfolding after_renew
  renew_owned_individually [] os = os
  renew_owned_individually ((shard, token) ∷ ts) os =
      renew_owned_individually ts (after_renew shard (m.renew shard token) os)

  unfoldable pub target_owned_shards : ℕ
  target_owned_shards =
      let quotient = m.num_shards / m.replica_count in
      let target = if m.num_shards % m.replica_count == 0 then quotient else quotient + 1 in
      if target == 0 then 1 else target

  unfoldable pub after_acquire : ℕ → Result (Option ShardLease) → Owned → Option GoError × Owned
  unfolding put_lease
  after_acquire shard (err e) os = (some e, os)
  after_acquire shard (ok none) os =
      (some (message "acquire shard: repository returned a nil lease"), os)
  after_acquire shard (ok (some lease)) os =
      if str_eq lease.owner m.owner
      then (none, put_lease os shard (some lease))
      else (some (sentinel lease_owned_by_other), os)

  unfoldable pub acquire_shard : ℕ → Owned → Option GoError × Owned
  unfolding after_acquire
  acquire_shard shard os = after_acquire shard (m.acquire shard) os

  -- The keys, highest first.
  unfoldable pub insert_key : ℕ → List ℕ → List ℕ
  insert_key k [] = k ∷ []
  insert_key k (j ∷ js) = let rest = insert_key k js in if ltb j k then k ∷ j ∷ js else j ∷ rest

  unfoldable pub sorted_keys : Owned → List ℕ
  unfolding insert_key
  sorted_keys [] = []
  sorted_keys (o ∷ os) = insert_key o.0 (sorted_keys os)

  unfoldable pub after_release : ℕ → Option GoError → ℕ × Owned → ℕ × Owned
  unfolding is_owner delete_lease
  after_release shard (some e) (excess, os) = (excess, os)
  after_release shard none (excess, os) =
      if is_owner os shard then (excess - 1, delete_lease os shard) else (excess, os)

  unfoldable pub release_excess : List ℕ → ℕ × Owned → Owned
  unfolding after_release
  release_excess [] (excess, os) = os
  release_excess (shard ∷ shards) (excess, os) =
      let rest = release_excess shards (after_release shard (m.release shard) (excess, os)) in
      if excess == 0 then os else rest

  abbrev pub after_try : ℕ → Option GoError × Owned → ℕ × Owned
  after_try needed (none, os) = (needed - 1, os)
  after_try needed (some e, os) = (needed, os)

  unfoldable pub try_acquire : ℕ → ℕ × Owned → ℕ × Owned
  unfolding is_owner acquire_shard
  try_acquire shard (needed, os) =
      if is_owner os shard then (needed, os) else after_try needed (acquire_shard shard os)

  -- The loop over the shards, of which `k` are left.
  unfoldable pub acquire_needed : ℕ → ℕ → ℕ × Owned → Owned
  unfolding try_acquire
  acquire_needed zero shard (needed, os) = os
  acquire_needed (suc k) shard (needed, os) =
      let rest = acquire_needed k (suc shard) (try_acquire shard (needed, os)) in
      if needed == 0 then os else rest

  unfoldable pub rebalance_if_needed : Owned → Owned
  unfolding target_owned_shards sorted_keys release_excess acquire_needed
  rebalance_if_needed os =
      let target = target_owned_shards in
      let kept =
        if ltb target (length os)
        then release_excess (sorted_keys os) (length os - target, os)
        else os in
      if leb target (length kept)
      then kept
      else acquire_needed m.num_shards 0 (target - length kept, kept)
