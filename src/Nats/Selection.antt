-- ===== src/Nats/Selection.antt =====
-- What `matchingConsumerKeys` of internal/adapters/nats/jetstream.go selects, in whatever order Go ranges over
-- the map.
use mathlib.Core.List.Perm
use mathlib.Core.List.{foldr}
use mathlib.Core.HLevel.{hedberg}
use kafka_simulate_rule.Prelude.{
  inr, ◌∙◌, inl, ap, sym, ◌∷◌, ◌∷◌, [], Perm, Bool-cases, ℕ_discrete, if◌then◌else◌, String, ◌≡◌,
  List, ℕ, refl,
}
use kafka_simulate_rule.Nats.{ConsumerKey, is_wanted, key_lt, insert_key, matching_consumer_keys}
use kafka_simulate_rule.Batches.Identity.{String-discrete}
use kafka_simulate_rule.Nats.Order.{key_lt-IsStrict, mixed}

insert_key-front :
    (a b : ConsumerKey) (xs : List ConsumerKey)
    → (if key_lt b a then b ∷ a ∷ xs else a ∷ b ∷ xs)
      ≡ (if key_lt a b then a ∷ b ∷ xs else b ∷ a ∷ xs)
insert_key-front a b xs = elim (Bool-cases (key_lt b a)) [
  | inl e ↦ rw (e, key_lt-IsStrict.asym b a e) refl
  | inr e ↦ elim (Bool-cases (key_lt a b)) [
    | inl f ↦ rw (e, f) refl
    | inr f ↦ let same = key_lt-IsStrict.connex a b f e in rw (e, f) (λ i. same i ∷ sym same i ∷ xs)
  ]
]

insert_key_comm :
    (a b : ConsumerKey) (xs : List ConsumerKey)
    → insert_key a (insert_key b xs) ≡ insert_key b (insert_key a xs)
unfolding insert_key
insert_key_comm a b [] = insert_key-front a b []
insert_key_comm a b (x ∷ xs) = elim (Bool-cases (key_lt x b)) [
  | inl e ↦ elim (Bool-cases (key_lt x a)) [
    | inl f ↦ rw (e, f) (rw e (ap (λ l. x ∷ l) (insert_key_comm a b xs)))
    | inr f ↦ let less = mixed key_lt-IsStrict x b a f e in rw (e, f) (rw (e, less) refl)
  ]
  | inr e ↦ elim (Bool-cases (key_lt x a)) [
    | inl f ↦ let less = mixed key_lt-IsStrict x a b e f in rw (e, f) (rw (less, e) refl)
    | inr f ↦ rw (e, f) (rw e (insert_key-front a b (x ∷ xs)))
  ]
]

module _ (wanted : List ℕ) where
  -- One step of the range over the map.
  visit : ConsumerKey × String → List ConsumerKey → List ConsumerKey
  visit entry keys = if is_wanted entry.0.shard wanted then insert_key entry.0 keys else keys

  visit_comm :
      (a b : ConsumerKey × String) (keys : List ConsumerKey)
      → visit a (visit b keys) ≡ visit b (visit a keys)
  unfolding visit
  visit_comm a b keys = elim (Bool-cases (is_wanted a.0.shard wanted)) [
    | inl e ↦ elim (Bool-cases (is_wanted b.0.shard wanted)) [
      | inl f ↦ rw (e, f) (insert_key_comm a.0 b.0 keys)
      | inr f ↦ rw (e, f) refl
    ]
    | inr e ↦ rw e refl
  ]

  matching-foldr :
      (consumers : List (ConsumerKey × String))
      → foldr visit [] consumers ≡ matching_consumer_keys consumers wanted
  unfolding visit matching_consumer_keys
  matching-foldr [] = refl
  matching-foldr ((key, durable) ∷ consumers) =
      ap (λ keys. if is_wanted key.shard wanted then insert_key key keys else keys)
        (matching-foldr consumers)

  ConsumerKey-discrete : Discrete ConsumerKey
  ConsumerKey-discrete = hlevel (ℕ_discrete, String-discrete)

  pub matching_consumer_keys-perm :
      (xs ys : List (ConsumerKey × String))
      → Perm xs ys
      → matching_consumer_keys xs wanted ≡ matching_consumer_keys ys wanted
  matching_consumer_keys-perm xs ys h =
      sym (matching-foldr xs)
      ∙ Perm.foldr-eq (hlevel (hedberg ConsumerKey-discrete)) visit visit_comm h []
      ∙ matching-foldr ys
