-- ===== src/Nats/Consumers.antt =====
-- The durable consumers of internal/adapters/nats/jetstream.go, shard by shard. The answers of the
-- broker are those of one call of the adapter; `none` is a nil error.
pub mod Complete
use kafka_simulate_rule.Prelude.{
  length, str_eq, ◌&&◌, ◌++◌, ◌||◌, not, ltb, [], some, false, ◌∷◌, ◌<>◌, ◌==◌, ◌∷◌, none,
  if◌then◌else◌, List, Bool, Option, String, ℕ,
}
use kafka_simulate_rule.Nats.{Consumer, ConsumerKey}
use Prim.Native.Char.{code}
use kafka_simulate_rule.Domain.Event.{bytes}
use kafka_simulate_rule.Domain.Errors.{GoError, wrap}
use kafka_simulate_rule.Domain.Event.{is_empty}

abbrev pub same_key : ConsumerKey → ConsumerKey → Bool
same_key a b =
    a.shard == b.shard && (str_eq a.base_subject b.base_subject && str_eq a.rule_set b.rule_set)

-- `_, exists := c.consumers[key]`
unfoldable pub has_key : List (ConsumerKey × String) → ConsumerKey → Bool
has_key [] key = false
has_key ((k, durable) ∷ consumers) key = same_key k key || has_key consumers key

-- The broker, and the names: `token` is the hexadecimal SHA-256, `cut` is `value[:n]`.
pub record Broker : Type 0 where
  pub create_consumer : String → String → Option GoError
  pub token : String → String
  pub cut : ℕ → String → String
  pub utoa : ℕ → String
  pub quote : String → String

-- The table of the `strings.NewReplacer`.
unfoldable pub replace_signs : String → String
replace_signs String.[] = ""
replace_signs (String.◌∷◌ c s) =
    let rest = replace_signs s in
    if code c == 46 || code c == 32
    then "-" <> rest
    else if code c == 42 || code c == 62
    then "x" <> rest
    else String.◌∷◌ c rest

-- The error of a call, and the map after it.
abbrev pub Ensured : Type 0
Ensured = Option GoError × List (ConsumerKey × String)

module _ (broker : Broker) where
  abbrev pub rule_set_subject : String → String → ℕ → String
  rule_set_subject base_subject rule_set shard =
      base_subject <> (".ruleset." <> (broker.token rule_set <> (".shard." <> broker.utoa shard)))

  abbrev pub safe_durable_token : String → String
  safe_durable_token value =
      let safe = replace_signs value in
      if ltb 32 (length (bytes safe)) then broker.cut 32 safe else safe

  abbrev pub filter_subject : ConsumerKey → String
  filter_subject key =
      if is_empty key.rule_set
      then key.base_subject <> (".shard." <> broker.utoa key.shard)
      else rule_set_subject key.base_subject key.rule_set key.shard

  -- `first` is the first subject.
  abbrev pub durable_name : String → String → ConsumerKey → String
  durable_name base_durable first key =
      if not (is_empty key.rule_set)
      then base_durable
        <> ("-"
            <> (safe_durable_token key.base_subject
                <> ("-rs-"
                    <> (broker.cut 32 (broker.token key.rule_set)
                        <> ("-shard-" <> broker.utoa key.shard)))))
      else if str_eq key.base_subject first
      then base_durable <> ("-shard-" <> broker.utoa key.shard)
      else base_durable
        <> ("-" <> (safe_durable_token key.base_subject <> ("-shard-" <> broker.utoa key.shard)))

  abbrev pub after_create :
      Option GoError → ConsumerKey → String → List (ConsumerKey × String) → Ensured
  after_create none key durable consumers = (none, (key, durable) ∷ consumers)
  after_create (some e) key durable consumers = (
    some (
        wrap
          ("create consumer for subject "
            <> (broker.quote (filter_subject key)
                <> (" shard " <> (broker.utoa key.shard <> ": "))))
          e),
    consumers,
  )

  unfoldable pub ensure_consumer_locked :
      String → String → List (ConsumerKey × String) → ConsumerKey → Ensured
  unfolding has_key replace_signs
  ensure_consumer_locked base_durable first consumers key =
      let durable = durable_name base_durable first key in
      if has_key consumers key
      then (none, consumers)
      else after_create (broker.create_consumer durable (filter_subject key)) key durable consumers

  -- The keys in the order of the two loops of `EnsureShardConsumer`.
  abbrev pub keys_of_rule_sets : String → List String → ℕ → List ConsumerKey
  keys_of_rule_sets base [] shard = []
  keys_of_rule_sets base (r ∷ rule_sets) shard =
      record { base_subject = base; rule_set = r; shard = shard }
      ∷ keys_of_rule_sets base rule_sets shard

  abbrev pub shard_keys : List String → List String → ℕ → List ConsumerKey
  shard_keys [] rule_sets shard = []
  shard_keys (base ∷ subjects) rule_sets shard =
      keys_of_rule_sets base ("" ∷ rule_sets) shard ++ shard_keys subjects rule_sets shard

  abbrev pub stop_at : Ensured → (List (ConsumerKey × String) → Ensured) → Ensured
  stop_at (some e, consumers) next = (some e, consumers)
  stop_at (none, consumers) next = next consumers

  -- The first error ends the loops.
  unfoldable pub ensure_keys :
      String → String → List ConsumerKey → List (ConsumerKey × String) → Ensured
  unfolding ensure_consumer_locked
  ensure_keys base_durable first [] consumers = (none, consumers)
  ensure_keys base_durable first (key ∷ keys) consumers =
      stop_at (ensure_consumer_locked base_durable first consumers key)
        (λ left. ensure_keys base_durable first keys left)

  abbrev pub with_consumers : Consumer → Ensured → Option GoError × Consumer
  with_consumers c (failure, consumers) = (failure, record c { consumers = consumers })

  unfoldable pub ensure_subjects : String → Consumer → ℕ → List String → Option GoError × Consumer
  unfolding ensure_keys
  ensure_subjects base_durable c shard [] = (none, c)
  ensure_subjects base_durable c shard (first ∷ rest) =
      with_consumers c
        (ensure_keys base_durable first (shard_keys (first ∷ rest) c.rule_sets shard) c.consumers)

  -- `EnsureShardConsumer`, with `c.baseDurable`.
  unfoldable pub ensure_shard_consumer : String → Consumer → ℕ → Option GoError × Consumer
  unfolding ensure_subjects
  ensure_shard_consumer base_durable c shard = ensure_subjects base_durable c shard c.subjects
