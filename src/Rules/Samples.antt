-- ===== src/Rules/Samples.antt =====
-- A small runtime and rule set on which the rule engine (internal/rules) runs.
use kafka_simulate_rule.Prelude.{
  true, refl, pos_part, ◌≡◌, ltb, ◌==◌, List, [], ◌∷◌, Option, none, some, String, str_eq,
  if◌then◌else◌, pos, negsuc, ℤ,
}
use kafka_simulate_rule.Domain.Values.{
  close, field, float64, string, int64, object, null, Value, Runtime,
}
use kafka_simulate_rule.Domain.Result.{err, ok, Result}
use kafka_simulate_rule.Domain.Rule.{
  valid_op, done, eq, gte, pointer, nil_pointer, next, slice, nil_slice, predicate, lt, first_match,
  Decision, Action, Predicate, Operator, RuleRevision,
}
use kafka_simulate_rule.Rules.Compiler.{
  otherwise_only_last, validate_actions, validate_rule_actions, validate_rule_identity,
  compile_rule, compile_each, count_rule_set_work, validate_rule_set_budgets,
  validate_rule_set_metadata, validate_rule_set, parse_raw_rules, parse_rule_set, compile_rules,
  RawRuleSet, compile, RawRule, Decoder,
}
use kafka_simulate_rule.Domain.Event.{bytes, Time, EventEnvelope}
use kafka_simulate_rule.Rules.Evaluator.{process_rule_result, evaluate_rules, evaluate}
use kafka_simulate_rule.Rules.Validation.{
  validate_emit_action, validate_composite_predicate_shape, validate_predicate, validate_action,
  count_predicates, default_limits,
}
use kafka_simulate_rule.Rules.Predicate.{eval_leaf, eval_predicate}
use kafka_simulate_rule.Rules.Path.{walk_object_path, resolve_path}
use kafka_simulate_rule.Rules.Compare.{compare_eq, compare_cmp, evaluate_leaf_value}
use kafka_simulate_rule.Rules.Effects.{describe_action, build_effect}
use kafka_simulate_rule.Domain.Identity.{
  compute_source_hash, compute_decision_hash, compute_effect_id,
}

-- Floats that are whole numbers, two documents, and a hash that keeps its text.
abbrev order_text : String
order_text = "{\"total\":700}"

abbrev order : Value
order = object (field "total" (float64 700) (field "country" (string "US") close))

abbrev decode : String → Option Value
decode raw =
    if str_eq raw order_text then some order else if str_eq raw "null" then some null else none

abbrev print : Value → String
print (int64 (pos n)) = if n == 700 then "700" else "other"
print (string s) = s
print _ = "?"

abbrev digits : ℤ → String
digits (pos n) = if n == 0 then "0" else if n == 1 then "1" else "n"
digits (negsuc n) = "-"

abbrev pub small_go : Runtime
small_go = record {
  float_lt = ltb;
  float_eq = λ a b. a == b;
  float_of_int64 = λ i. pos_part i;
  int64_of_float = pos;
  parse_float = λ s. none;
  parse_int64 = λ s. none;
  sprint = print;
  unmarshal = decode;
  valid_json = λ s. true;
  decode_error = λ s. "bad JSON";
  marshal = λ v. some "null";
  encode_error = λ v. "bad value";
  marshal_raw = λ s. some s;
  marshal_event = λ e. some e.id;
  event_error = λ e. "bad event";
  rfc3339 = λ t. "now";
  sha256_hex = λ s. s;
  itoa = digits;
  quote = λ s. s;
}

abbrev leaf : String → Operator → Value → Predicate
leaf path op v = predicate nil_slice nil_slice nil_pointer path op v

abbrev pub big_order : Predicate
big_order =
    predicate
      (slice (
        next (pointer (leaf "$.total" gte (float64 500)))
          (next (pointer (leaf "$.country" eq (string "US"))) done)))
      nil_slice nil_pointer "" eq null

abbrev pub small_order : Predicate
small_order = leaf "$.total" lt (float64 500)

abbrev emit_to : String → Action
emit_to topic = record {
  emit = some (record { topic = topic; payload = "null" });
  emit_event = none;
  command = none;
}

abbrev pub raw_rules : List RawRule
raw_rules =
    record {
      id = "small";
      name = "";
      description = "";
      tags = [];
      priority = pos 1;
      condition = small_order;
      actions = emit_to "log" ∷ [];
      otherwise = emit_to "skip" ∷ [];
    }
    ∷ record {
      id = "big";
      name = "";
      description = "";
      tags = [];
      priority = pos 2;
      condition = big_order;
      actions = emit_to "review" ∷ emit_to "notify" ∷ [];
      otherwise = [];
    }
    ∷ []

abbrev pub raw_set : RawRuleSet
raw_set = record {
  rule_set = "orders";
  revision = pos 1;
  mode = "first_match";
  rules = "rules";
  input_contract = none;
}

abbrev pub small_decoder : Decoder
small_decoder = record {
  decode_rule_set = λ s. some raw_set;
  decode_rules = λ s. some raw_rules;
  decode_failure = λ s. "";
}

abbrev pub order_source : String
order_source = "source"

abbrev value_or {ℓ} : {A : Type ℓ} → A → Result A → A
value_or a (ok b) = b
value_or a (err e) = a

abbrev blank_revision : RuleRevision
blank_revision = record {
  tenant_scope = "";
  rule_id = "";
  revision = pos 0;
  content_hash = "";
  match_mode = first_match;
  compiled = [];
  source = "";
  compiler_version = "";
  input_contract = none;
  created_at = 0;
}

unfoldable pub orders : RuleRevision
unfolding compile compile_rules parse_rule_set parse_raw_rules validate_rule_set
    validate_rule_set_metadata validate_rule_set_budgets count_rule_set_work count_predicates
    compile_each compile_rule validate_rule_identity validate_rule_actions validate_actions
    validate_action validate_predicate validate_composite_predicate_shape valid_op
    validate_emit_action default_limits bytes compute_source_hash otherwise_only_last
orders = value_or blank_revision (compile small_go small_decoder default_limits order_source 5)

pub compile-orders : compile small_go small_decoder default_limits order_source 5 ≡ ok orders
unfolding orders
compile-orders = refl

abbrev pub order_event : EventEnvelope
order_event = record {
  id = "e1";
  event_type = "orders";
  tenant_id = "acme";
  partition_key = "k";
  workflow_id = "";
  occurred_at = 7;
  payload = order_text;
  headers = none;
}

abbrev blank_decision : Decision
blank_decision = record { matched_rules = []; effects = []; hash = ""; explanations = [] }

unfoldable pub decision_at : Time → Decision
unfolding orders evaluate evaluate_rules process_rule_result eval_predicate eval_leaf resolve_path
    walk_object_path evaluate_leaf_value compare_cmp compare_eq build_effect describe_action
    compute_effect_id compute_decision_hash
decision_at now = value_or blank_decision (evaluate small_go orders order_event now [])

pub evaluate-orders :
    (now : Time) → evaluate small_go orders order_event now [] ≡ ok (decision_at now)
unfolding decision_at
evaluate-orders now = refl

-- The large order matches the rule of the higher priority, and the evaluation stops there.
matched-orders : (decision_at 9).matched_rules ≡ "big" ∷ []
unfolding decision_at
matched-orders = refl
