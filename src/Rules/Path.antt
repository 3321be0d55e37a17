-- ===== src/Rules/Path.antt =====
-- internal/rules/evaluator.go: paths into the event's data and into the facts.
use Prim.Native.Char.{Char, code}
use kafka_simulate_rule.Prelude.{
  ◌&&◌, if◌then◌else◌, ◌==◌, List, [], ◌∷◌, Option, none, some, String, str_eq, ◌<>◌,
}
use kafka_simulate_rule.Domain.Errors.{sentinel, invalid_fact_path, message, wrap}
use kafka_simulate_rule.Domain.Result.{Result, ok, err}
use kafka_simulate_rule.Domain.Event.{is_empty}
use kafka_simulate_rule.Domain.Values.{Value, null, object, get_field, Runtime}

-- `strings.HasPrefix(path, "$.")` with `path[2:]`.
unfoldable pub after_root : String → Option String
after_root (String.◌∷◌ c (String.◌∷◌ d rest)) =
    if code c == b'$' && code d == b'.' then some rest else none
after_root _ = none

abbrev push : Char → List String → List String
push c [] = String.◌∷◌ c String.[] ∷ []
push c (w ∷ ws) = String.◌∷◌ c w ∷ ws

-- `strings.Split(path, ".")`
unfoldable pub split_dots : String → List String
split_dots String.[] = "" ∷ []
split_dots (String.◌∷◌ c s) =
    let rest = split_dots s in if code c == b'.' then "" ∷ rest else push c rest

-- One step of the walk: into an object, or to nil.
abbrev step_into : String → Value → Option Value
step_into part (object fs) = get_field part fs
step_into part _ = none

unfoldable pub walk_object_path : Value → List String → Value
unfolding get_field
walk_object_path v [] = v
walk_object_path v (part ∷ parts) =
    if is_empty part
    then walk_object_path v parts
    else elim (step_into part v) [ none ↦ null | some w ↦ walk_object_path w parts ]

-- `facts[factKey]`
abbrev pub find_fact : String → List (String × String) → Option String
find_fact k [] = none
find_fact k ((j, v) ∷ fs) = if str_eq j k then some v else find_fact k fs

module _ (go : Runtime) where
  open go use {unmarshal, decode_error}

  unfoldable pub resolve_fact_path : List String → List (String × String) → Result Value
  resolve_fact_path [] facts = ok null
  resolve_fact_path (key ∷ parts) facts = elim (find_fact key facts) [
    | none ↦ ok null
    | some raw ↦ elim (unmarshal raw) [
      | none ↦ err (wrap ("unmarshal fact " <> (key <> ": ")) (message (decode_error raw)))
      | some v ↦ ok (walk_object_path v parts)
    ]
  ]

  unfoldable pub resolve_event_data_path : String → List String → Result Value
  resolve_event_data_path raw parts = elim (unmarshal raw) [
    | none ↦ err (wrap "unmarshal data: " (message (decode_error raw)))
    | some v ↦ ok (walk_object_path v parts)
  ]

  abbrev pub resolve_parts : List String → String → List (String × String) → Result Value
  resolve_parts [] raw facts = resolve_event_data_path raw []
  resolve_parts (p ∷ ps) raw facts =
      if str_eq p "facts" then resolve_fact_path ps facts else resolve_event_data_path raw (p ∷ ps)

  unfoldable pub resolve_path : String → String → List (String × String) → Result Value
  unfolding after_root split_dots resolve_fact_path resolve_event_data_path
  resolve_path path raw facts = elim (after_root path) [
    | none ↦ err (sentinel invalid_fact_path)
    | some rest ↦ resolve_parts (split_dots rest) raw facts
  ]
