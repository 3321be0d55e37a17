-- ===== src/Domain/Event/Laws.antt =====
-- Laws of the envelope of internal/domain/types.go.
use kafka_simulate_rule.Prelude.{
  refl, ◌%◌, ◌<>◌, ℕ, ◌<◌, ◌≡◌, ◌≢◌, ◌↔◌, String, none, arith, eq_iff, List, [], ◌∷◌,
}
use Prim.Native.Nat.{bit_xor, ◌*◌}
use kafka_simulate_rule.Domain.Event.{
  EventEnvelope, validate, hash_from, shard_hash, virtual_shard, u32, bytes,
}

-- Every part that the engine relies on is there.
abbrev pub IsWellFormed : EventEnvelope → Type 0
IsWellFormed e =
    (e.id ≢ "")
    × (e.event_type ≢ "")
    × (e.tenant_id ≢ "")
    × (e.partition_key ≢ "")
    × (e.occurred_at ≢ 0)

-- `Validate` returns no error exactly on an envelope that has an ID, a type, a tenant, a partition key and
-- a time.
pub validate-IsWellFormed : (e : EventEnvelope) → (validate e ≡ none) ↔ IsWellFormed e
unfolding validate
validate-IsWellFormed e = (
  λ h. ground (
    arith,
    eq_iff e.id "",
    eq_iff e.event_type "",
    eq_iff e.tenant_id "",
    eq_iff e.partition_key "",
  ),
  λ w. ground (
    arith,
    eq_iff e.id "",
    eq_iff e.event_type "",
    eq_iff e.tenant_id "",
    eq_iff e.partition_key "",
  ),
)

hash_from-lt : (h : ℕ) (bs : List ℕ) → h < 4294967296 → hash_from h bs < 4294967296
unfolding hash_from
hash_from-lt h [] l = l
hash_from-lt h (b ∷ bs) l = hash_from-lt (u32 (bit_xor h b * 16777619)) bs (omega arith)

-- The hash is a 32-bit word.
pub shard_hash-lt : (key : String) → shard_hash key < 4294967296
unfolding shard_hash
shard_hash-lt key = hash_from-lt 2166136261 (bytes key) (omega arith)

-- A virtual shard lies below the modulus, and is the remainder of a hash that fits a 32-bit word: every
-- step of the hash keeps to the word.
pub virtual_shard-lt :
    (e : EventEnvelope) (n : ℕ)
    → 0 < n
    → (virtual_shard e n < n)
      × (shard_hash (e.tenant_id <> (":" <> e.partition_key)) < 4294967296)
      × (virtual_shard e n ≡ shard_hash (e.tenant_id <> (":" <> e.partition_key)) % n)
unfolding virtual_shard
virtual_shard-lt e n h =
    (omega arith, shard_hash-lt (e.tenant_id <> (":" <> e.partition_key)), refl)
