-- ===== src/Rules/Compare.antt =====
-- internal/rules/evaluator.go: the comparisons of a leaf predicate.
use kafka_simulate_rule.Prelude.{
  Bool, true, false, not, ◌&&◌, ◌||◌, if◌then◌else◌, Option, none, some, String, str_eq, ◌<>◌,
}
use kafka_simulate_rule.Domain.Errors.{sentinel, invalid_operator, message}
use kafka_simulate_rule.Domain.Result.{Result, ok, err}
use kafka_simulate_rule.Domain.Values.{
  Value, float64, int64, number, string, array, Items, end, item, Runtime, is_null, Float64,
}
use kafka_simulate_rule.Domain.Rule.{
  Operator, eq, neq, gt, gte, lt, lte, is_in, not_in, exists, not_exists, other_op,
}

-- The results 1, -1, 0 and 2 of `compareCmp`.
pub data Comparison : Type 0 where
  greater less equal incompatible : Comparison

unfoldable pub operator_text : Operator → String
operator_text eq = "eq"
operator_text neq = "neq"
operator_text gt = "gt"
operator_text gte = "gte"
operator_text lt = "lt"
operator_text lte = "lte"
operator_text is_in = "in"
operator_text not_in = "not_in"
operator_text exists = "exists"
operator_text not_exists = "not_exists"
operator_text (other_op s) = s

module _ (go : Runtime) where
  open go use {float_lt, float_eq, float_of_int64, int64_of_float, parse_float, parse_int64, sprint}

  unfoldable pub normalize_number : Value → Value
  normalize_number (float64 n) =
      if float_eq n (float_of_int64 (int64_of_float n)) then int64 (int64_of_float n) else float64 n
  normalize_number (int64 n) = int64 n
  normalize_number (number s) = elim (parse_int64 s) [
    | some i ↦ int64 i
    | none ↦ elim (parse_float s) [ some f ↦ float64 f | none ↦ number s ]
  ]
  normalize_number v = v

  unfoldable pub compare_eq : Value → Value → Bool
  unfolding normalize_number
  compare_eq actual expected =
      if not (is_null (normalize_number actual)) && not (is_null (normalize_number expected))
      then str_eq (sprint (normalize_number actual)) (sprint (normalize_number expected))
      else str_eq (sprint actual) (sprint expected)

  unfoldable pub to_float64 : Value → Option Float64
  to_float64 (float64 n) = some n
  to_float64 (int64 n) = some (float_of_int64 n)
  to_float64 (number s) = parse_float s
  to_float64 (string s) = parse_float s
  to_float64 _ = none

  abbrev compare_floats : Float64 → Float64 → Comparison
  compare_floats a b = if float_lt b a then greater else if float_lt a b then less else equal

  unfoldable pub compare_cmp : Value → Value → Comparison
  unfolding to_float64
  compare_cmp actual expected = elim (to_float64 actual) [
    | none ↦ incompatible
    | some a ↦ elim (to_float64 expected) [ none ↦ incompatible | some b ↦ compare_floats a b ]
  ]

  unfoldable pub any_equal : Value → Items → Bool
  any_equal v end = false
  any_equal v (item w ws) = compare_eq v w || any_equal v ws

  unfoldable pub compare_in : Value → Value → Bool
  unfolding any_equal
  compare_in v (array ws) = any_equal v ws
  compare_in v _ = false

  -- The second switch of `compareNumericLeaf`.
  abbrev decide_order : Operator → Comparison → Result Bool
  decide_order gt greater = ok true
  decide_order gt _ = ok false
  decide_order gte less = ok false
  decide_order gte _ = ok true
  decide_order lt less = ok true
  decide_order lt _ = ok false
  decide_order lte greater = ok false
  decide_order lte _ = ok true
  decide_order _ _ = err (sentinel invalid_operator)

  abbrev incomparable : Operator → Value → Value → String
  incomparable op a b =
      "cannot compare non-numeric values for "
      <> (operator_text op <> (": " <> (sprint a <> (" vs " <> sprint b))))

  unfoldable pub compare_numeric_leaf : Operator → Value → Value → Result Bool
  unfolding operator_text
  compare_numeric_leaf op actual expected = elim (compare_cmp actual expected) [
    | incompatible ↦ err (message (incomparable op actual expected))
    | c ↦ decide_order op c
  ]

  unfoldable pub evaluate_leaf_value : Operator → Value → Value → Result Bool
  unfolding compare_numeric_leaf
  evaluate_leaf_value eq a e = ok (compare_eq a e)
  evaluate_leaf_value neq a e = ok (not (compare_eq a e))
  evaluate_leaf_value gt a e = compare_numeric_leaf gt a e
  evaluate_leaf_value gte a e = compare_numeric_leaf gte a e
  evaluate_leaf_value lt a e = compare_numeric_leaf lt a e
  evaluate_leaf_value lte a e = compare_numeric_leaf lte a e
  evaluate_leaf_value is_in a e = ok (compare_in a e)
  evaluate_leaf_value not_in a e = ok (not (compare_in a e))
  evaluate_leaf_value _ a e = err (sentinel invalid_operator)
