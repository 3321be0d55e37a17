-- ===== src/Shards/Growing.antt =====
-- What is there when leases are acquired (internal/runtime/shard/lease.go).
use kafka_simulate_rule.Prelude.{
  ◌∙◌, zero, sym, ◌<◌, suc, ◌+◌, inr, subst, inl, none, ◌⊎◌, str_eq, ◌≤◌, some, true, length,
  Bool-cases, [], ◌||◌, false, if_both, arith, Bool, ◌==◌, Option, ◌≡◌, ◌∷◌, ℕ, refl,
}
use kafka_simulate_rule.Shards.{
  after_try, acquire_shard, try_acquire, after_acquire, ShardLease, Owned, LeaseManager, is_owner,
  find_lease, put_lease, acquire_needed,
}
use kafka_simulate_rule.Shards.Rebalance.{try-Tried}
use kafka_simulate_rule.Domain.Result.{Result, ok, err}

put_lease-is_owner :
    (os : Owned) (k s : ℕ) (lease : Option ShardLease)
    → is_owner (put_lease os k lease) s ≡ (is_owner os s || k == s)
unfolding put_lease is_owner find_lease
put_lease-is_owner [] k s lease = ground arith
put_lease-is_owner (o ∷ os) k s lease =
    let ih = put_lease-is_owner os k s lease in ground (arith, ih)

or_true : {a : Bool} (b : Bool) → a ≡ true → (a || b) ≡ true
or_true b h = rw h refl

module _ (m : LeaseManager) where
  -- The repository grants a shard to the worker.
  abbrev pub is_granted : Result (Option ShardLease) → Bool
  is_granted (err e) = false
  is_granted (ok none) = false
  is_granted (ok (some lease)) = str_eq lease.owner m.owner

  -- The target is reached, or every shard of a range that the repository grants is owned.
  unfoldable pub Grown : ℕ → ℕ → ℕ → Owned → Type 0
  Grown target from to os =
      (target ≤ length os)
      ⊎ ((s : ℕ) → from ≤ s → s < to → is_granted (m.acquire s) ≡ true → is_owner os s ≡ true)

  after_acquire-keeps :
      (shard needed : ℕ) (r : Result (Option ShardLease)) (os : Owned) (s : ℕ)
      → is_owner os s ≡ true
      → is_owner (after_try m needed (after_acquire m shard r os)).1 s ≡ true
  unfolding after_acquire
  after_acquire-keeps shard needed (err e) os s h = h
  after_acquire-keeps shard needed (ok none) os s h = h
  after_acquire-keeps shard needed (ok (some lease)) os s h =
      elim (Bool-cases (str_eq lease.owner m.owner)) [
        | inl e ↦ rw e (put_lease-is_owner os shard s (some lease) ∙ or_true (shard == s) h)
        | inr e ↦ rw e h
      ]

  try-keeps :
      (shard needed : ℕ) (os : Owned) (s : ℕ)
      → is_owner os s ≡ true
      → is_owner (try_acquire m shard (needed, os)).1 s ≡ true
  unfolding try_acquire acquire_shard
  try-keeps shard needed os s h =
      if_both (λ (p : ℕ × Owned). is_owner p.1 s ≡ true) (is_owner os shard) h
        (after_acquire-keeps shard needed (m.acquire shard) os s h)

  acquire-keeps :
      (k shard needed : ℕ) (os : Owned) (s : ℕ)
      → is_owner os s ≡ true
      → is_owner (acquire_needed m k shard (needed, os)) s ≡ true
  unfolding acquire_needed
  acquire-keeps zero shard needed os s h = h
  acquire-keeps (suc k) shard needed os s h =
      let p = try_acquire m shard (needed, os) in
      if_both (λ (q : Owned). is_owner q s ≡ true) (needed == 0) h
        (acquire-keeps k (suc shard) p.0 p.1 s (try-keeps shard needed os s h))

  after_acquire-granted :
      (shard needed : ℕ) (r : Result (Option ShardLease)) (os : Owned)
      → is_granted r ≡ true
      → is_owner (after_try m needed (after_acquire m shard r os)).1 shard ≡ true
  unfolding after_acquire
  after_acquire-granted shard needed (err e) os h = cc h
  after_acquire-granted shard needed (ok none) os h = cc h
  after_acquire-granted shard needed (ok (some lease)) os h =
      rw h (put_lease-is_owner os shard shard (some lease) ∙ ground arith)

  try-granted :
      (shard needed : ℕ) (os : Owned)
      → is_granted (m.acquire shard) ≡ true
      → is_owner (try_acquire m shard (needed, os)).1 shard ≡ true
  unfolding try_acquire acquire_shard
  try-granted shard needed os h = elim (Bool-cases (is_owner os shard)) [
    | inl f ↦ rw f f
    | inr f ↦ rw f (after_acquire-granted shard needed (m.acquire shard) os h)
  ]

  pub acquire-Grown :
      (k shard target needed : ℕ) (os : Owned)
      → length os + needed ≡ target
      → Grown target shard (shard + k) (acquire_needed m k shard (needed, os))
  unfolding acquire_needed Grown
  acquire-Grown zero shard target needed os l = inr (λ s a b g. absurd (omega (arith, a, b)))
  acquire-Grown (suc k) shard target needed os l = elim (Bool-cases (needed == 0)) [
    | inl z ↦ rw z (inl (ground (arith, z, l)))
    | inr z ↦
        let p = try_acquire m shard (needed, os) in
        let one = try-Tried m shard needed os (ground (arith, z)) in
        let rest = acquire-Grown k (suc shard) target p.0 p.1 (omega (arith, one.counted, l)) in
        rw z (elim rest [
          | inl e ↦ inl e
          | inr f ↦ inr (λ s a b g. elim (Bool-cases (shard == s)) [
            | inl e ↦
                let same : shard ≡ s = ground (arith, e) in
                acquire-keeps k (suc shard) p.0 p.1 s (
                  subst (λ x. is_owner p.1 x ≡ true) same
                    (try-granted shard needed os
                      (subst (λ x. is_granted (m.acquire x) ≡ true) (sym same) g)))
            | inr e ↦ f s (ground (arith, e, a)) (omega (arith, b)) g
          ])
        ])
  ]
