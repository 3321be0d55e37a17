-- ===== src/Domain/Event.antt =====
-- internal/domain/types.go: the event envelope, its validation and its virtual shard.
pub mod Laws
use Prim.Native.Nat.{bit_xor}
use Prim.Native.Char.{code}
use kafka_simulate_rule.Prelude.{
  ℕ, ◌+◌, ◌*◌, ◌/◌, ◌%◌, ◌^◌, Bool, if◌then◌else◌, ltb, ◌==◌, List, [], ◌∷◌, ◌++◌, Option, none,
  some, String, str_eq, ◌<>◌,
}
use kafka_simulate_rule.Domain.Errors.{
  GoError, sentinel, event_id_required, event_type_required, tenant_id_required,
  partition_key_required, occurred_at_required,
}

-- A `time.Time` is its distance from Go's zero time.
abbrev pub Time : Type 0
Time = ℕ

-- A `nil` map of headers is `none`.
pub record EventEnvelope : Type 0 where
  pub id : String
  pub event_type : String
  pub tenant_id : String
  pub partition_key : String
  pub workflow_id : String
  pub occurred_at : Time
  pub payload : String
  pub headers : Option (List (String × String))

abbrev pub is_empty : String → Bool
is_empty s = str_eq s ""

-- `none` is a nil error.
unfoldable pub validate : EventEnvelope → Option GoError
validate e =
    if is_empty e.id
    then some (sentinel event_id_required)
    else if is_empty e.event_type
    then some (sentinel event_type_required)
    else if is_empty e.tenant_id
    then some (sentinel tenant_id_required)
    else if is_empty e.partition_key
    then some (sentinel partition_key_required)
    else if e.occurred_at == 0
    then some (sentinel occurred_at_required)
    else none

-- The bytes of one code point in UTF-8.
abbrev utf8 : ℕ → List ℕ
utf8 c =
    if ltb c 128
    then c ∷ []
    else if ltb c 2048
    then (192 + c / 64) ∷ (128 + c % 64) ∷ []
    else if ltb c 65536
    then (224 + c / 4096) ∷ (128 + c / 64 % 64) ∷ (128 + c % 64) ∷ []
    else (240 + c / 262144) ∷ (128 + c / 4096 % 64) ∷ (128 + c / 64 % 64) ∷ (128 + c % 64) ∷ []

unfoldable pub bytes : String → List ℕ
bytes String.[] = []
bytes (String.◌∷◌ c s) = utf8 (code c) ++ bytes s

abbrev pub u32 : ℕ → ℕ
u32 n = n % 4294967296

-- The loop of `ShardHash`: `h ^= uint32(key[i]); h *= 16777619`.
unfoldable pub hash_from : ℕ → List ℕ → ℕ
hash_from h [] = h
hash_from h (b ∷ bs) = hash_from (u32 (bit_xor h b * 16777619)) bs

unfoldable pub shard_hash : String → ℕ
unfolding hash_from bytes
shard_hash key = hash_from 2166136261 (bytes key)

-- A modulus of 0 is a run-time panic in the source; its callers never pass one.
unfoldable pub virtual_shard : EventEnvelope → ℕ → ℕ
virtual_shard e modulus = shard_hash (e.tenant_id <> (":" <> e.partition_key)) % modulus
