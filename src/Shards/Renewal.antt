-- ===== src/Shards/Renewal.antt =====
-- The batch renewal of internal/runtime/shard/lease.go against leases that change meanwhile.
use kafka_simulate_rule.Shards.{
  token_of, is_token, ShardLease, Tokens, put_lease, delete_lease, Owned, apply_batch_renewals,
  get_fencing_token, find_lease, apply_renewal,
}
use kafka_simulate_rule.Prelude.{
  sym, subst, ℕ_discrete, inr, ◌∙◌, refl, if_both, false, inl, none, [], All, arith, ◌∷◌,
  if◌then◌else◌, some, ◌⊎◌, ◌≡◌, ◌≢◌, ℤ, Option, ℕ,
}

find-put_ne :
    (os : Owned) (j shard : ℕ) (lease : Option ShardLease)
    → j ≢ shard
    → find_lease (put_lease os j lease) shard ≡ find_lease os shard
unfolding find_lease put_lease
find-put_ne [] j shard lease h = ground arith
find-put_ne (o ∷ os) j shard lease h = ground (arith, find-put_ne os j shard lease h)

find-delete_ne :
    (os : Owned) (j shard : ℕ)
    → j ≢ shard
    → find_lease (delete_lease os j) shard ≡ find_lease os shard
unfolding find_lease delete_lease
find-delete_ne [] j shard h = refl
find-delete_ne (o ∷ os) j shard h = ground (arith, find-delete_ne os j shard h)

find-apply_ne :
    (os : Owned) (j shard : ℕ) (o : Option (Option ShardLease))
    → j ≢ shard
    → find_lease (apply_renewal j o os) shard ≡ find_lease os shard
unfolding apply_renewal
find-apply_ne os j shard none h = find-delete_ne os j shard h
find-apply_ne os j shard (some lease) h = find-put_ne os j shard lease h

-- The renewal does not speak of the lease `c` of the shard: it has another shard or another token.
abbrev pub IsStale : ℕ → Option (Option ShardLease) → ℕ × ℤ → Type 0
IsStale shard c t = (t.0 ≢ shard) ⊎ (is_token t.1 (token_of c) ≡ false)

one-renewal :
    (t : ℕ × ℤ) (renewed os : Owned) (shard : ℕ) (c : Option (Option ShardLease))
    → find_lease os shard ≡ c
    → IsStale shard c t
    → find_lease
        (if is_token t.1 (get_fencing_token os t.0)
          then apply_renewal t.0 (find_lease renewed t.0) os
          else os)
        shard
      ≡ c
unfolding get_fencing_token
one-renewal (j, token) renewed os shard c f (inl ne) =
    if_both (λ (q : Owned). find_lease q shard ≡ c) (is_token token (get_fencing_token os j))
      (find-apply_ne os j shard (find_lease renewed j) ne ∙ f) f
one-renewal (j, token) renewed os shard c f (inr stale) = elim (ℕ_discrete j shard) [
  | yes e ↦
      let off : is_token token (get_fencing_token os j) ≡ false =
        subst (λ k. is_token token (token_of (find_lease os k)) ≡ false) (sym e)
          (subst (λ d. is_token token (token_of d) ≡ false) (sym f) stale) in
      rw off f
  | no ne ↦
      if_both (λ (q : Owned). find_lease q shard ≡ c) (is_token token (get_fencing_token os j))
        (find-apply_ne os j shard (find_lease renewed j) ne ∙ f) f
]

-- The result of a batch renewal does not touch a shard whose lease it does not speak of: one that was
-- lost, acquired or renewed under another token since the batch was made keeps the state it has now.
pub apply_batch_renewals-IsStale :
    (ts : Tokens) (renewed os : Owned) (shard : ℕ) (c : Option (Option ShardLease))
    → find_lease os shard ≡ c
    → All (IsStale shard c) ts
    → find_lease (apply_batch_renewals ts renewed os) shard ≡ c
unfolding apply_batch_renewals
apply_batch_renewals-IsStale [] renewed os shard c f h = f
apply_batch_renewals-IsStale (t ∷ ts) renewed os shard c f h =
    apply_batch_renewals-IsStale ts renewed _ shard c (one-renewal t renewed os shard c f h.0) h.1
