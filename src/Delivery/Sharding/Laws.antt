-- ===== src/Delivery/Sharding/Laws.antt =====
-- The reconciliation of internal/application/worker_sharding.go.
-- What a call does to the broker's consumers, when the broker takes it.
use kafka_simulate_rule.Prelude.{
  ==_iff, sym, ◌∙◌, ap, true, inr, inl, Bool-cases, arith, ◌==◌, refl, not, none, ◌&&◌, [], ◌||◌,
  ◌++◌, ◌≡◌, ◌∷◌, ℕ, List,
}
use kafka_simulate_rule.Delivery.Sharding.{
  ensuring, after_remove, removing, ensure_owned_shard_consumers, Act, sync_consumers,
  remove_unowned_shard_consumers, without, Consumers, member,
}

unfoldable pub perform : Act → List ℕ → List ℕ
unfolding without
perform (removing shard) consumers = without shard consumers
perform (ensuring shard) consumers = shard ∷ consumers

unfoldable pub perform_all : List Act → List ℕ → List ℕ
unfolding perform
perform_all [] consumers = consumers
perform_all (a ∷ acts) consumers = perform_all acts (perform a consumers)

perform_all-append :
    (xs ys : List Act) (s : List ℕ) → perform_all (xs ++ ys) s ≡ perform_all ys (perform_all xs s)
unfolding perform_all
perform_all-append [] ys s = refl
perform_all-append (a ∷ xs) ys s = perform_all-append xs ys (perform a s)

same-member : (k j : ℕ) (s : List ℕ) → (k == j) ≡ true → member j s ≡ member k s
same-member k j s h = ap (λ i. member i s) (sym ((==_iff k j).0 h))

member-without : (j k : ℕ) (s : List ℕ) → member j (without k s) ≡ (member j s && not (k == j))
unfolding member without
member-without j k [] = refl
member-without j k (x ∷ s) = ground (arith, member-without j k s)

module _ (c : Consumers) where
  abbrev pub RemovesAll : Type 0
  RemovesAll = (k : ℕ) → c.remove_shard_consumer k ≡ none

  -- The removals leave the shards that are owned, and the worker knows them.
  removal :
      (active owned s : List ℕ)
      → RemovesAll
      → (perform_all (remove_unowned_shard_consumers c active owned s).0 s
          ≡ (remove_unowned_shard_consumers c active owned s).1)
        × ((j : ℕ)
            → member j (remove_unowned_shard_consumers c active owned s).1
              ≡ (member j s && (member j owned || not (member j active))))
  unfolding remove_unowned_shard_consumers perform_all perform after_remove member
  removal [] owned s r = (refl, λ j. ground arith)
  removal (k ∷ active) owned s r = elim (Bool-cases (member k owned)) [
    | inl o ↦
        let (same, left) = removal active owned s r in
        rw o (same, λ j. ground (arith, left j, same-member k j owned))
    | inr o ↦
        let (same, left) = removal active owned (without k s) r in
        rw (o, r k) (same, λ j. ground (arith, left j, member-without j k s, same-member k j owned))
  ]

  ensured :
      (owned set s : List ℕ) (j : ℕ)
      → member j (perform_all (ensure_owned_shard_consumers c owned set) s)
        ≡ (member j s || (member j owned && not (member j set)))
  unfolding ensure_owned_shard_consumers perform_all perform member
  ensured [] set s j = ground arith
  ensured (k ∷ owned) set s j = elim (Bool-cases (member k set)) [
    | inl m ↦ rw m ground (arith, ensured owned set s j, same-member k j set)
    | inr m ↦ rw m ground (arith, ensured owned set (k ∷ s) j, same-member k j set)
  ]

  -- When the broker takes the calls, a pass leaves a consumer for exactly the shards that the worker owns,
  -- whatever consumers there were.
  pub sync_consumers-member :
      (owned active : List ℕ) (j : ℕ)
      → ((k : ℕ) → c.remove_shard_consumer k ≡ none)
      → member j (perform_all (sync_consumers c owned active) active) ≡ member j owned
  unfolding sync_consumers
  sync_consumers-member owned active j r =
      let p = remove_unowned_shard_consumers c active owned active in
      let (same, left) = removal active owned active r in
      ap (member j) (perform_all-append p.0 (ensure_owned_shard_consumers c owned p.1) active)
      ∙ ap (λ s. member j (perform_all (ensure_owned_shard_consumers c owned p.1) s)) same
      ∙ ensured owned p.1 p.1 j
      ∙ ground (arith, left j)
