-- ===== src/Shards/Rebalance.antt =====
-- What rebalancing does to the leases of internal/runtime/shard/lease.go.
use Prim.Native.Nat.{min, max}
-- Every lease that is held names its worker.
use kafka_simulate_rule.Shards.{
  sorted_keys, after_try, target_owned_shards, acquire_shard, acquire_needed, rebalance_if_needed,
  after_acquire, try_acquire, ShardLease, find_lease, after_release, Owned, is_owner,
  release_excess, delete_lease, put_lease, LeaseManager,
}
use kafka_simulate_rule.Prelude.{
  ltb, leb, if◌then◌else◌, ◌-◌, eq_iff, str_eq, zero, inr, inl, refl, suc, [], ◌==◌, none, ◌<◌, ◌+◌,
  Bool-cases, false, true, ◌≡◌, if_both, ◌≤◌, arith, some, All, length, Option, ◌∷◌, List, ℕ,
  String,
}
use kafka_simulate_rule.Domain.Errors.{GoError}
use kafka_simulate_rule.Domain.Result.{ok, err, Result}

abbrev pub HasOwner : String → ℕ × Option ShardLease → Type 0
HasOwner owner (shard, none) = Unit
HasOwner owner (shard, some lease) = lease.owner ≡ owner

abbrev pub AllOwned : String → Owned → Type 0
AllOwned owner os = All (HasOwner owner) os

length-put_new :
    (os : Owned) (shard : ℕ) (lease : Option ShardLease)
    → is_owner os shard ≡ false
    → length (put_lease os shard lease) ≡ suc (length os)
unfolding put_lease is_owner find_lease
length-put_new [] shard lease h = refl
length-put_new (o ∷ os) shard lease h = ground (arith, length-put_new os shard lease)

pub length-delete :
    (os : Owned) (shard : ℕ)
    → is_owner os shard ≡ true
    → length (delete_lease os shard) + 1 ≡ length os
unfolding delete_lease is_owner find_lease
length-delete [] shard h = cc h
length-delete (o ∷ os) shard h = ground (arith, length-delete os shard)

put-AllOwned :
    (owner : String) (os : Owned) (shard : ℕ) (lease : ShardLease)
    → lease.owner ≡ owner
    → AllOwned owner os
    → AllOwned owner (put_lease os shard (some lease))
unfolding put_lease
put-AllOwned owner [] shard lease h a = (h, tt)
put-AllOwned owner (o ∷ os) shard lease h a =
    if_both (AllOwned owner) (o.0 == shard) (h, a.1) (a.0, put-AllOwned owner os shard lease h a.1)

delete-AllOwned :
    (owner : String) (os : Owned) (shard : ℕ)
    → AllOwned owner os
    → AllOwned owner (delete_lease os shard)
unfolding delete_lease
delete-AllOwned owner [] shard a = tt
delete-AllOwned owner (o ∷ os) shard a =
    if_both (AllOwned owner) (o.0 == shard) a.1 (a.0, delete-AllOwned owner os shard a.1)

module _ (m : LeaseManager) where
  -- Releasing never goes below what is to be kept, and never adds a lease.
  record Released (excess : ℕ) (os os' : Owned) : Type 0 where
    fewer : length os' ≤ length os
    enough : length os ≤ length os' + excess
    owned : AllOwned m.owner os → AllOwned m.owner os'

  one-release :
      (shard : ℕ) (o : Option GoError) (excess : ℕ) (os : Owned)
      → 0 < excess
      → (length (after_release m shard o (excess, os)).1 + excess
          ≡ length os + (after_release m shard o (excess, os)).0)
        × (length (after_release m shard o (excess, os)).1 ≤ length os)
  unfolding after_release
  one-release shard (some e) excess os h = (refl, omega arith)
  one-release shard none excess os h = ground (arith, length-delete os shard)

  after_release-AllOwned :
      (shard : ℕ) (o : Option GoError) (excess : ℕ) (os : Owned)
      → AllOwned m.owner os
      → AllOwned m.owner (after_release m shard o (excess, os)).1
  unfolding after_release
  after_release-AllOwned shard (some e) excess os a = a
  after_release-AllOwned shard none excess os a =
      if_both (λ (p : ℕ × Owned). AllOwned m.owner p.1) (is_owner os shard)
        (delete-AllOwned m.owner os shard a) a

  release-Released :
      (shards : List ℕ) (excess : ℕ) (os : Owned)
      → Released excess os (release_excess m shards (excess, os))
  unfolding release_excess
  release-Released [] excess os = record {
    fewer = omega arith;
    enough = omega arith;
    owned = λ a. a;
  }
  release-Released (shard ∷ shards) excess os = elim (Bool-cases (excess == 0)) [
    | inl z ↦ rw z (record { fewer = omega arith; enough = omega arith; owned = λ a. a })
    | inr z ↦
        let p = after_release m shard (m.release shard) (excess, os) in
        let r = release-Released shards p.0 p.1 in
        let one = one-release shard (m.release shard) excess os (ground arith) in
        rw z (record {
          fewer = omega (arith, r.fewer, one.1);
          enough = omega (arith, r.enough, one.0);
          owned = λ a. r.owned (after_release-AllOwned shard (m.release shard) excess os a);
        })
  ]

  -- Acquiring never goes beyond what is needed, and never drops a lease.
  pub record Acquired (needed : ℕ) (os os' : Owned) : Type 0 where
    more : length os ≤ length os'
    pub bounded : length os' ≤ length os + needed
    owned : AllOwned m.owner os → AllOwned m.owner os'

  -- One try: a new lease is counted, and is of this worker.
  pub record Tried (needed : ℕ) (os : Owned) (p : ℕ × Owned) : Type 0 where
    pub counted : length p.1 + p.0 ≡ length os + needed
    more : length os ≤ length p.1
    owned : AllOwned m.owner os → AllOwned m.owner p.1

  nothing-Tried : (needed : ℕ) (os : Owned) → Tried needed os (needed, os)
  nothing-Tried needed os = record { counted = refl; more = omega arith; owned = λ a. a }

  acquire-Tried :
      (shard needed : ℕ) (r : Result (Option ShardLease)) (os : Owned)
      → 0 < needed
      → is_owner os shard ≡ false
      → Tried needed os (after_try m needed (after_acquire m shard r os))
  unfolding after_acquire
  acquire-Tried shard needed (err e) os h f = nothing-Tried needed os
  acquire-Tried shard needed (ok none) os h f = nothing-Tried needed os
  acquire-Tried shard needed (ok (some lease)) os h f =
      elim (Bool-cases (str_eq lease.owner m.owner)) [
        | inl s ↦
            let grown = length-put_new os shard (some lease) f in
            let mine = (eq_iff lease.owner m.owner).0 s in
            rw s (record {
              counted = omega (arith, grown);
              more = omega (arith, grown);
              owned = λ a. put-AllOwned m.owner os shard lease mine a;
            })
        | inr s ↦ rw s (nothing-Tried needed os)
      ]

  pub try-Tried :
      (shard needed : ℕ) (os : Owned)
      → 0 < needed
      → Tried needed os (try_acquire m shard (needed, os))
  unfolding try_acquire acquire_shard
  try-Tried shard needed os h = elim (Bool-cases (is_owner os shard)) [
    | inl f ↦ rw f (nothing-Tried needed os)
    | inr f ↦ rw f (acquire-Tried shard needed (m.acquire shard) os h f)
  ]

  pub acquire-Acquired :
      (k shard needed : ℕ) (os : Owned) → Acquired needed os (acquire_needed m k shard (needed, os))
  unfolding acquire_needed
  acquire-Acquired zero shard needed os = record {
    more = omega arith;
    bounded = omega arith;
    owned = λ a. a;
  }
  acquire-Acquired (suc k) shard needed os = elim (Bool-cases (needed == 0)) [
    | inl z ↦ rw z (record { more = omega arith; bounded = omega arith; owned = λ a. a })
    | inr z ↦
        let p = try_acquire m shard (needed, os) in
        let one = try-Tried shard needed os (ground arith) in
        let r = acquire-Acquired k (suc shard) p.0 p.1 in
        rw z (record {
          more = omega (arith, one.more, r.more);
          bounded = omega (arith, one.counted, r.bounded);
          owned = λ a. r.owned (one.owned a);
        })
  ]

  kept :
      (target : ℕ) (os : Owned)
      → Released (length os - target) os (
          if ltb target (length os)
          then release_excess m (sorted_keys m os) (length os - target, os)
          else os)
  kept target os =
      if_both (Released (length os - target) os) (ltb target (length os))
        (release-Released (sorted_keys m os) (length os - target) os)
        (record { fewer = omega arith; enough = omega arith; owned = λ a. a })

  filled :
      (target n : ℕ) (os : Owned)
      → Acquired
          (target - length os)
          os
          (if leb target (length os) then os else acquire_needed m n 0 (target - length os, os))
  filled target n os =
      if_both (Acquired (target - length os) os) (leb target (length os))
        (record { more = omega arith; bounded = omega arith; owned = λ a. a })
        (acquire-Acquired n 0 (target - length os) os)

  -- Rebalancing moves the number of leases of a worker towards its target and never past it, whatever the
  -- repository answers; and when every lease that was held names the worker, so does every lease that is
  -- held afterwards.
  pub rebalance_if_needed-AllOwned :
      (os : Owned)
      → AllOwned m.owner os
      → AllOwned m.owner (rebalance_if_needed m os)
        × (min (length os) (target_owned_shards m) ≤ length (rebalance_if_needed m os))
        × (length (rebalance_if_needed m os) ≤ max (length os) (target_owned_shards m))
  unfolding rebalance_if_needed
  rebalance_if_needed-AllOwned os a =
      let target = target_owned_shards m in
      let k = kept target os in
      let f = filled target m.num_shards _ in
      (
        f.owned (k.owned a),
        omega (arith, k.fewer, k.enough, f.more, f.bounded),
        omega (arith, k.fewer, k.enough, f.more, f.bounded),
      )
