-- ===== src/Shards/Target.antt =====
-- The number of leases that a worker of internal/runtime/shard/lease.go aims at.
use native.Mathlib.Omega.{div_any}
use native.Mathlib.Nat.{mod-lt, suc-mul, mul_comm}
use kafka_simulate_rule.Shards.{LeaseManager, target_owned_shards}
use kafka_simulate_rule.Prelude.{
  subst, zero, suc, inr, arith, inl, Bool-cases, ◌%◌, ◌≡◌, ◌/◌, ◌-◌, ◌+◌, ◌==◌, ◌<◌, ◌*◌, ◌≤◌,
  if◌then◌else◌, ℕ,
}

abbrev round_up : ℕ → ℕ → ℕ
round_up quotient remainder =
    let target = if remainder == 0 then quotient else quotient + 1 in
    if target == 0 then 1 else target

record Covers (n r target : ℕ) : Type 0 where
  enough : n ≤ target * r
  needed : (target - 1) * r < n

Covers-suc : (k n r : ℕ) → k * r < n → n ≤ k * r + r → Covers n r (suc k)
Covers-suc k n r l h = record {
  enough = omega (arith, suc-mul k r);
  needed = subst (λ j. j * r < n) (omega arith) l;
}

round_up-Covers : (q w n r : ℕ) → r * q + w ≡ n → w < r → 0 < n → Covers n r (round_up q w)
round_up-Covers zero w n r d l p = elim (Bool-cases (w == 0)) [
  | inl z ↦ absurd (ground (arith, mul_comm r 0))
  | inr z ↦ rw z (record { enough = omega (arith, d); needed = omega (arith, d) })
]
round_up-Covers (suc q) w n r d l p =
    let one = suc-mul q r in
    let flip = mul_comm r (suc q) in
    elim (Bool-cases (w == 0)) [
      | inl z ↦
          let even : suc q ≡ round_up (suc q) w = ground arith in
          subst (Covers n r) even
            (Covers-suc q n r (ground (arith, d, one, flip)) (ground (arith, d, one, flip)))
      | inr z ↦
          let odd : suc (suc q) ≡ round_up (suc q) w = ground arith in
          subst (Covers n r) odd
            (Covers-suc (suc q) n r (ground (arith, d, one, flip)) (ground (arith, d, one, flip)))
    ]

-- For a positive number of shards and of workers: the workers together can hold every shard, and with one
-- lease fewer for each they could not.
pub target_owned_shards-covers :
    (m : LeaseManager)
    → 0 < m.replica_count
    → 0 < m.num_shards
    → (m.num_shards ≤ target_owned_shards m * m.replica_count)
      × ((target_owned_shards m - 1) * m.replica_count < m.num_shards)
unfolding target_owned_shards
target_owned_shards-covers m r n =
    let c =
      round_up-Covers (m.num_shards / m.replica_count) (m.num_shards % m.replica_count) m.num_shards
        m.replica_count (div_any m.num_shards m.replica_count) (mod-lt m.num_shards r) n in
    (c.enough, c.needed)
