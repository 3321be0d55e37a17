-- ===== src/Shards/Shrinking.antt =====
-- What is left when leases are released (internal/runtime/shard/lease.go).
use kafka_simulate_rule.Prelude.{
  ap, ◌∙◌, ◌-◌, sym, Option-cases, ◌+◌, inr, subst, inl, none, ◌⊎◌, ◌≤◌, some, true, length,
  Bool-cases, [], ◌||◌, not, ◌&&◌, false, if_both, arith, Bool, ◌==◌, Option, ◌≡◌, ◌∷◌, List, ℕ,
  refl,
}
use kafka_simulate_rule.Shards.{
  after_release, Owned, LeaseManager, is_owner, find_lease, delete_lease, sorted_keys, insert_key,
  release_excess,
}
use kafka_simulate_rule.Shards.Rebalance.{length-delete}
use kafka_simulate_rule.Domain.Errors.{GoError}

-- The list stands for a map: each shard is in it once.
abbrev pub IsDistinct : Owned → Type 0
IsDistinct [] = Unit
IsDistinct (o ∷ os) = (is_owner os o.0 ≡ false) × IsDistinct os

abbrev in_list : ℕ → List ℕ → Bool
in_list s [] = false
in_list s (x ∷ xs) = x == s || in_list s xs

insert_key-in_list :
    (m : LeaseManager) (s k : ℕ) (js : List ℕ)
    → in_list s (insert_key m k js) ≡ (k == s || in_list s js)
unfolding insert_key
insert_key-in_list m s k [] = refl
insert_key-in_list m s k (j ∷ js) = let ih = insert_key-in_list m s k js in ground (arith, ih)

pub sorted_keys-in_list :
    (m : LeaseManager) (os : Owned) (s : ℕ) → in_list s (sorted_keys m os) ≡ is_owner os s
unfolding sorted_keys is_owner find_lease
sorted_keys-in_list m [] s = refl
sorted_keys-in_list m (o ∷ os) s =
    let ih = sorted_keys-in_list m os s in
    let one = insert_key-in_list m s o.0 (sorted_keys m os) in ground (arith, ih, one)

delete_lease-is_owner :
    (os : Owned) (k s : ℕ)
    → IsDistinct os
    → is_owner (delete_lease os k) s ≡ (is_owner os s && not (k == s))
unfolding delete_lease is_owner find_lease
delete_lease-is_owner [] k s d = refl
delete_lease-is_owner (o ∷ os) k s d =
    let ih = delete_lease-is_owner os k s d.1 in
    elim (Bool-cases (o.0 == k)) [
      | inl e ↦
          let same : o.0 ≡ k = ground (arith, e) in
          let gone : is_owner os k ≡ false = subst (λ x. is_owner os x ≡ false) same d.0 in
          elim (Bool-cases (k == s)) [
            | inl f ↦
                let here : k ≡ s = ground (arith, f) in
                let lost : is_owner os s ≡ false = subst (λ x. is_owner os x ≡ false) here gone in
                rw (e, f) (ground (arith, lost))
            | inr f ↦ rw (e, f) (ground (arith, f, same))
          ]
      | inr e ↦ rw e (ground (arith, ih, e))
    ]

delete_lease-IsDistinct : (os : Owned) (k : ℕ) → IsDistinct os → IsDistinct (delete_lease os k)
unfolding delete_lease
delete_lease-IsDistinct [] k d = tt
delete_lease-IsDistinct (o ∷ os) k d =
    let gone = delete_lease-is_owner os k o.0 d.1 in
    if_both IsDistinct (o.0 == k) d.1 (rw d.0 at gone, delete_lease-IsDistinct os k d.1)

unlisted : {R : Type 0} → (false ≡ true) ⊎ R → R
unlisted (inl h) = cc h
unlisted (inr r) = r

tail_of :
    {R : Type 0}
    → (a b : Bool) → (a ≡ true → (b ≡ true) ⊎ R)
    → ((a || b) ≡ true) ⊎ R
    → (b ≡ true) ⊎ R
tail_of true b f h = f refl
tail_of false b f h = h

and_left : (a b : Bool) → (a && b) ≡ true → a ≡ true
and_left true b h = refl
and_left false b h = cc h

module _ (m : LeaseManager) where
  -- The repository lets a shard go.
  abbrev pub is_released : Option GoError → Bool
  is_released none = true
  is_released (some e) = false

  -- No more than the target is left, or what is left was not released.
  unfoldable pub Shrunk : ℕ → Owned → Type 0
  Shrunk target os =
      (length os ≤ target) ⊎ ((s : ℕ) → is_owner os s ≡ true → is_released (m.release s) ≡ false)

  unfoldable pub Visited : List ℕ → Owned → Type 0
  Visited shards os =
      (s : ℕ)
      → is_owner os s ≡ true
      → (in_list s shards ≡ true) ⊎ (is_released (m.release s) ≡ false)

  pub release-Shrunk :
      (shards : List ℕ) (target excess : ℕ) (os : Owned)
      → IsDistinct os
      → length os ≡ target + excess
      → Visited shards os
      → Shrunk target (release_excess m shards (excess, os))
  unfolding release_excess after_release Shrunk Visited
  release-Shrunk [] target excess os d l v = inr (λ s h. unlisted (v s h))
  release-Shrunk (shard ∷ shards) target excess os d l v = elim (Bool-cases (excess == 0)) [
    | inl z ↦ rw z (inl (ground (arith, z, l)))
    | inr z ↦ rw z (elim (Option-cases (m.release shard)) [
      | inl n ↦ rw n (elim (Bool-cases (is_owner os shard)) [
        | inl f ↦
            let count = length-delete os shard f in
            rw f (
              release-Shrunk shards target (excess - 1) (delete_lease os shard)
                (delete_lease-IsDistinct os shard d) (ground (arith, z, l, count))
                (λ s h.
                  let both = sym (delete_lease-is_owner os shard s d) ∙ h in
                  tail_of (shard == s) (in_list s shards) (λ e. absurd (ground (arith, both, e)))
                    (v s (and_left (is_owner os s) (not (shard == s)) both))))
        | inr f ↦ rw f (
            release-Shrunk shards target excess os d l (λ s h.
              tail_of (shard == s) (in_list s shards)
                (λ e.
                  let same : shard ≡ s = ground (arith, e) in
                  let other = subst (λ x. is_owner os x ≡ false) same f in cc (other, h))
                (v s h)))
      ])
      | inr (x, n) ↦ rw n (
          release-Shrunk shards target excess os d l (λ s h.
            tail_of (shard == s) (in_list s shards)
              (λ e.
                let same : shard ≡ s = ground (arith, e) in
                inr (ap (λ y. is_released (m.release y)) (sym same) ∙ ap is_released n))
              (v s h)))
    ])
  ]
