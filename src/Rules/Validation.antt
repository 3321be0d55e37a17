-- ===== src/Rules/Validation.antt =====
-- internal/rules/compiler.go: the validation of predicates and actions, and the count of predicates.
pub mod Laws
use kafka_simulate_rule.Prelude.{
  ℕ, ◌+◌, ◌*◌, suc, Bool, true, false, not, ◌&&◌, ◌||◌, ltb, if◌then◌else◌, Option, none, some,
  String, length, ◌==◌,
}
use Prim.Native.Char.{code}
use kafka_simulate_rule.Domain.Errors.{
  invalid_operator, rule_exceeds_limits, invalid_action, invalid_predicate, GoError, sentinel,
}
use kafka_simulate_rule.Domain.Event.{is_empty, bytes}
use kafka_simulate_rule.Domain.Rule.{
  from_data, next, valid_op, nil_slice, Pointers, inherit, nil_pointer, done, pointer,
  CommandAction, Operator, explicit, slice, predicate, EmitAction, PartitionKeyPolicy, Action,
  Slice, Pointer, EmitEventAction, Predicate,
}
use kafka_simulate_rule.Domain.Values.{Runtime}
use kafka_simulate_rule.Rules.Effects.{default_policy}
use kafka_simulate_rule.Rules.Path.{after_root}

-- The limits are not negative.
pub record Limits : Type 0 where
  pub max_rules_per_set : ℕ
  pub max_predicates : ℕ
  pub max_nesting_depth : ℕ
  pub max_actions_per_set : ℕ
  pub max_payload_bytes : ℕ
  pub max_rule_id_len : ℕ

unfoldable pub default_limits : Limits
default_limits = record {
  max_rules_per_set = 100;
  max_predicates = 200;
  max_nesting_depth = 10;
  max_actions_per_set = 10;
  max_payload_bytes = 256 * 1024;
  max_rule_id_len = 128;
}

abbrev is_nil : Slice → Bool
is_nil nil_slice = true
is_nil (slice ps) = false

abbrev is_empty_slice : Slice → Bool
is_empty_slice (slice done) = true
is_empty_slice _ = false

abbrev is_nil_pointer : Pointer → Bool
is_nil_pointer nil_pointer = true
is_nil_pointer (pointer p) = false

abbrev one_if : Bool → ℕ
one_if b = if b then 1 else 0

unfoldable pub validate_composite_predicate_shape : Slice → Slice → Pointer → Option GoError
validate_composite_predicate_shape all any negated =
    if is_empty_slice all || is_empty_slice any
    then some (sentinel invalid_predicate)
    else if one_if (not (is_nil all))
          + one_if (not (is_nil any))
          + one_if (not (is_nil_pointer negated))
        == 1
    then none
    else some (sentinel invalid_predicate)

abbrev pub has_composite : Slice → Slice → Pointer → Bool
has_composite all any negated = not (is_nil all) || not (is_nil any) || not (is_nil_pointer negated)

abbrev pub or_else : Option GoError → Option GoError → Option GoError
or_else (some e) k = some e
or_else none k = k

-- The checks of `validatePredicate` that come before the children: `some none` is its `return nil`.
abbrev pub check_form :
    ℕ → ℕ → Slice → Slice → Pointer → String → Operator → Option (Option GoError)
check_form max_depth depth all any negated path op =
    if ltb max_depth depth
    then some (some (sentinel rule_exceeds_limits))
    else if not (is_empty path) && has_composite all any negated
        || is_empty path && not (has_composite all any negated)
    then some (some (sentinel invalid_predicate))
    else if not (is_empty path)
    then some (if valid_op op then none else some (sentinel invalid_operator))
    else elim (validate_composite_predicate_shape all any negated) [
      | some e ↦ some (some e)
      | none ↦ none
    ]

-- The children of `All`, then those of `Any`, then `Not`.
unfoldable mutual
  pub validate_predicate : ℕ → ℕ → Predicate → Option GoError
  validate_predicate max_depth depth (predicate all any negated path op v) =
      let children =
        or_else (validate_slice max_depth depth all) (
          or_else (validate_slice max_depth depth any)
            (validate_negated max_depth depth negated)) in
      elim (check_form max_depth depth all any negated path op) [ some r ↦ r | none ↦ children ]

  pub validate_slice : ℕ → ℕ → Slice → Option GoError
  validate_slice max_depth depth nil_slice = none
  validate_slice max_depth depth (slice ps) = validate_each max_depth depth ps

  pub validate_each : ℕ → ℕ → Pointers → Option GoError
  validate_each max_depth depth done = none
  validate_each max_depth depth (next nil_pointer ps) = some (sentinel invalid_predicate)
  validate_each max_depth depth (next (pointer p) ps) =
      or_else (validate_predicate max_depth (suc depth) p) (validate_each max_depth depth ps)

  pub validate_negated : ℕ → ℕ → Pointer → Option GoError
  validate_negated max_depth depth nil_pointer = none
  validate_negated max_depth depth (pointer p) = validate_predicate max_depth (suc depth) p

unfoldable mutual
  pub count_predicates : Predicate → ℕ
  count_predicates (predicate all any negated path op v) =
      count_slice all + count_slice any + count_pointer negated + one_if (not (is_empty path))

  pub count_slice : Slice → ℕ
  count_slice nil_slice = 0
  count_slice (slice ps) = count_each ps

  pub count_each : Pointers → ℕ
  count_each done = 0
  count_each (next p ps) = count_pointer p + count_each ps

  pub count_pointer : Pointer → ℕ
  count_pointer nil_pointer = 0
  count_pointer (pointer p) = count_predicates p

-- `strings.ContainsAny(s, "*>")`
abbrev has_wildcard : String → Bool
has_wildcard String.[] = false
has_wildcard (String.◌∷◌ c s) = code c == b'*' || code c == b'>' || has_wildcard s

abbrev is_set {ℓ} : {A : Type ℓ} → Option A → Bool
is_set none = false
is_set (some a) = true

unfoldable pub validate_action_shape : Action → Option GoError
validate_action_shape a =
    if one_if (is_set a.emit) + one_if (is_set a.emit_event) + one_if (is_set a.command) == 1
    then none
    else some (sentinel invalid_action)

unfoldable pub valid_partition_key_policy : PartitionKeyPolicy → Bool
valid_partition_key_policy explicit = true
valid_partition_key_policy inherit = true
valid_partition_key_policy from_data = true
valid_partition_key_policy _ = false

unfoldable pub validate_partition_key_policy : EmitEventAction → PartitionKeyPolicy → Option GoError
validate_partition_key_policy action explicit =
    if is_empty action.partition_key then some (sentinel invalid_action) else none
validate_partition_key_policy action from_data =
    if is_empty action.partition_key_path || not (is_set (after_root action.partition_key_path))
    then some (sentinel invalid_action)
    else none
validate_partition_key_policy action _ = none

module _ (go : Runtime) (limits : Limits) where
  -- `json.Marshal` of a `json.RawMessage`; on its error the encoding is empty.
  abbrev payload_size : String → ℕ
  payload_size raw = elim (go.marshal_raw raw) [ none ↦ 0 | some t ↦ length (bytes t) ]

  unfoldable pub validate_emit_action : EmitAction → Option GoError
  validate_emit_action action =
      if is_empty action.topic
      then some (sentinel invalid_action)
      else if ltb limits.max_payload_bytes (payload_size action.payload)
      then some (sentinel rule_exceeds_limits)
      else none

  unfoldable pub validate_emit_event_action : EmitEventAction → Option GoError
  unfolding valid_partition_key_policy validate_partition_key_policy
  validate_emit_event_action action =
      let policy = default_policy action.partition_key_policy in
      if not (valid_partition_key_policy policy)
      then some (sentinel invalid_action)
      else or_else (validate_partition_key_policy action policy) (
          if is_empty action.event_type
            || has_wildcard action.event_type
            || not (go.valid_json action.payload)
          then some (sentinel invalid_action)
          else if ltb limits.max_payload_bytes (length (bytes action.payload))
          then some (sentinel rule_exceeds_limits)
          else none)

  unfoldable pub validate_command_action : CommandAction → Option GoError
  validate_command_action action =
      if is_empty action.destination || is_empty action.name
      then some (sentinel invalid_action)
      else if ltb limits.max_payload_bytes (payload_size action.payload)
      then some (sentinel rule_exceeds_limits)
      else none

  unfoldable pub validate_action : Action → Option GoError
  unfolding validate_action_shape
  validate_action a = or_else (validate_action_shape a) (elim a.emit [
    | some e ↦ validate_emit_action e
    | none ↦ elim a.emit_event [
      | some e ↦ validate_emit_event_action e
      | none ↦ elim a.command [
        | some c ↦ validate_command_action c
        | none ↦ some (sentinel invalid_action)
      ]
    ]
  ])
