-- ===== src/Rules/Compiler.antt =====
-- internal/rules/compiler.go: from the source of a rule set to its revision.
pub mod Order
pub mod Paths
pub mod Decisive
pub mod Inversion
pub mod Sound
use kafka_simulate_rule.Prelude.{
  true, ℕ, ◌+◌, Bool, false, not, ◌&&◌, ◌||◌, ltb, if◌then◌else◌, List, [], ◌∷◌, Option, none, some,
  String, str_eq, ℤ, ltb_ℤ, is_positive, length, ◌==◌,
}
use kafka_simulate_rule.Domain.Result.{or_fail, Result, ok, err, ◌>>=◌, check}
use kafka_simulate_rule.Domain.Values.{Runtime}
use kafka_simulate_rule.Rules.Validation.{
  validate_action, validate_predicate, Limits, count_predicates,
}
use kafka_simulate_rule.Domain.Rule.{
  other_mode, all_matches, RuleRevision, first_match, MatchMode, Action, CompiledRule, ContractRef,
  Predicate,
}
use kafka_simulate_rule.Domain.Errors.{
  invalid_action, wrap, message, ambiguous_priority, invalid_match_mode, duplicate_rule_id,
  revision_required, rule_exceeds_limits, rule_id_required, sentinel, GoError,
}
use kafka_simulate_rule.Domain.Event.{Time, bytes, is_empty}
use kafka_simulate_rule.Domain.Identity.{compute_source_hash}

pub record RawRuleSet : Type 0 where
  pub rule_set : String
  pub revision : ℤ
  pub mode : String
  pub rules : String
  pub input_contract : Option ContractRef

pub record RawRule : Type 0 where
  pub id : String
  pub name : String
  pub description : String
  pub tags : List String
  pub priority : ℤ
  pub condition : Predicate
  pub actions : List Action
  pub otherwise : List Action

-- `json.Unmarshal` into the two structures; `none` is its error, with its text.
pub record Decoder : Type 0 where
  pub decode_rule_set : String → Option RawRuleSet
  pub decode_rules : String → Option (List RawRule)
  pub decode_failure : String → String

abbrev pub compiler_version : String
compiler_version = "1.0.0"

-- `validateRuleSetMetadata`
unfoldable pub validate_rule_set_metadata : RawRuleSet → Option GoError
validate_rule_set_metadata rs =
    if is_empty rs.rule_set
    then some (sentinel rule_id_required)
    else if not (is_positive rs.revision)
    then some (sentinel revision_required)
    else if not (str_eq rs.mode "first_match") && not (str_eq rs.mode "all_matches")
    then some (sentinel invalid_match_mode)
    else none

unfoldable pub count_rule_set_work : List RawRule → ℕ × ℕ
count_rule_set_work [] = (0, 0)
count_rule_set_work (r ∷ rs) =
    let rest = count_rule_set_work rs in
    (count_predicates r.condition + rest.0, length r.actions + length r.otherwise + rest.1)

unfoldable pub validate_rule_set_budgets : Limits → List RawRule → Option GoError
validate_rule_set_budgets limits rules =
    if length rules == 0 || ltb limits.max_rules_per_set (length rules)
    then some (sentinel rule_exceeds_limits)
    else if ltb limits.max_predicates (count_rule_set_work rules).0
        || ltb limits.max_actions_per_set (count_rule_set_work rules).1
    then some (sentinel rule_exceeds_limits)
    else none

-- The maps `seenIDs` and `seenPriorities`.
pub record Seen : Type 0 where
  pub ids : List String
  pub priorities : List ℤ

abbrev pub has_id : String → List String → Bool
has_id k [] = false
has_id k (j ∷ js) = str_eq j k || has_id k js

abbrev pub same_ℤ : ℤ → ℤ → Bool
same_ℤ a b = not (ltb_ℤ a b) && not (ltb_ℤ b a)

abbrev pub has_priority : ℤ → List ℤ → Bool
has_priority k [] = false
has_priority k (j ∷ js) = same_ℤ j k || has_priority k js

unfoldable pub validate_rule_identity : RawRule → Limits → Seen → Result Seen
validate_rule_identity rule limits seen =
    if is_empty rule.id
    then err (sentinel rule_id_required)
    else if ltb limits.max_rule_id_len (length (bytes rule.id))
    then err (sentinel rule_exceeds_limits)
    else if has_id rule.id seen.ids
    then err (sentinel duplicate_rule_id)
    else if has_priority rule.priority seen.priorities
    then err (sentinel ambiguous_priority)
    else ok (record { ids = rule.id ∷ seen.ids; priorities = rule.priority ∷ seen.priorities })

module _ (go : Runtime) (limits : Limits) where
  unfoldable pub validate_actions : List Action → Option GoError
  validate_actions [] = none
  validate_actions (a ∷ as_) = elim (validate_action go limits a) [
    | some e ↦ some e
    | none ↦ validate_actions as_
  ]

  unfoldable pub validate_rule_actions : RawRule → Option GoError
  validate_rule_actions rule = elim (validate_predicate limits.max_nesting_depth 0 rule.condition) [
    | some e ↦ some e
    | none ↦
        if ltb limits.max_predicates (count_predicates rule.condition)
        then some (sentinel rule_exceeds_limits)
        else if length rule.actions == 0 || ltb limits.max_actions_per_set (length rule.actions)
        then some (sentinel rule_exceeds_limits)
        else elim (validate_actions rule.actions) [
          | some e ↦ some e
          | none ↦
              if ltb limits.max_actions_per_set (length rule.otherwise)
              then some (sentinel rule_exceeds_limits)
              else validate_actions rule.otherwise
        ]
  ]

  abbrev pub compiled_of : RawRule → CompiledRule
  compiled_of rule = record {
    id = rule.id;
    name = rule.name;
    description = rule.description;
    tags = rule.tags;
    priority = rule.priority;
    condition = rule.condition;
    actions = rule.actions;
    otherwise = rule.otherwise;
  }

  -- The maps change in place, also on the way to an error, which ends the compilation.
  unfoldable pub compile_rule : RawRule → Seen → Result (CompiledRule × Seen)
  compile_rule rule seen = validate_rule_identity rule limits seen >>= λ seen'.
      check (validate_rule_actions rule) (ok (compiled_of rule, seen'))

  -- The loop of `compileRules`.
  unfoldable pub compile_each : List RawRule → Seen → Result (List CompiledRule)
  compile_each [] seen = ok []
  compile_each (rule ∷ rules) seen =
      compile_rule rule seen >>= λ (c, seen'). compile_each rules seen' >>= λ cs. ok (c ∷ cs)

-- `sort.Slice` by falling priority, as an insertion sort. The priorities are distinct, so any sort
-- gives this order.
unfoldable pub insert_rule : CompiledRule → List CompiledRule → List CompiledRule
insert_rule r [] = r ∷ []
insert_rule r (x ∷ xs) = if ltb_ℤ x.priority r.priority then r ∷ x ∷ xs else x ∷ insert_rule r xs

unfoldable pub sort_rules : List CompiledRule → List CompiledRule
unfolding insert_rule
sort_rules [] = []
sort_rules (r ∷ rs) = insert_rule r (sort_rules rs)

-- The loop of `Compile` over all rules but the last.
unfoldable pub otherwise_only_last : List CompiledRule → Bool
otherwise_only_last [] = true
otherwise_only_last (r ∷ []) = true
otherwise_only_last (r ∷ s ∷ rs) = length r.otherwise == 0 && otherwise_only_last (s ∷ rs)

abbrev pub match_mode_of : String → MatchMode
match_mode_of mode =
    if str_eq mode "first_match"
    then first_match
    else if str_eq mode "all_matches"
    then all_matches
    else other_mode mode

abbrev pub nothing_seen : Seen
nothing_seen = record { ids = []; priorities = [] }

module _ (go : Runtime) (decoder : Decoder) (limits : Limits) where
  unfoldable pub compile_rules : List RawRule → Result (List CompiledRule)
  unfolding sort_rules
  compile_rules raw =
      compile_each go limits raw nothing_seen >>= λ compiled. ok (sort_rules compiled)

  unfoldable pub parse_rule_set : String → Result RawRuleSet
  parse_rule_set source =
      if is_empty source
      then err (message "empty rule source")
      else or_fail (decoder.decode_rule_set source)
          (wrap "parse rule set: " (message (decoder.decode_failure source)))

  unfoldable pub parse_raw_rules : String → Result (List RawRule)
  parse_raw_rules source =
      or_fail (decoder.decode_rules source)
        (wrap "parse rules: " (message (decoder.decode_failure source)))

  unfoldable pub validate_rule_set : RawRuleSet → Result (List RawRule)
  validate_rule_set rs =
      check (validate_rule_set_metadata rs)
        (parse_raw_rules rs.rules >>= λ raw. check (validate_rule_set_budgets limits raw) (ok raw))

  abbrev misplaced_otherwise : GoError
  misplaced_otherwise =
      wrap "first_match permits otherwise only on the lowest-priority rule: "
        (sentinel invalid_action)

  abbrev revision_of : RawRuleSet → String → List CompiledRule → Time → RuleRevision
  revision_of rs source compiled now = record {
    tenant_scope = "";
    rule_id = rs.rule_set;
    revision = rs.revision;
    content_hash = compute_source_hash go source;
    match_mode = match_mode_of rs.mode;
    compiled = compiled;
    source = source;
    compiler_version = compiler_version;
    input_contract = rs.input_contract;
    created_at = now;
  }

  abbrev pub finish : RawRuleSet → String → List CompiledRule → Time → Result RuleRevision
  finish rs source compiled now =
      if str_eq rs.mode "first_match" && not (otherwise_only_last compiled)
      then err misplaced_otherwise
      else ok (revision_of rs source compiled now)

  unfoldable pub compile : String → Time → Result RuleRevision
  compile source now = do
    rs ← parse_rule_set source
    raw ← validate_rule_set rs
    compiled ← compile_rules raw
    finish rs source compiled now
