-- ===== src/Rules/Contract.antt =====
-- `ValidatePathsAgainstContract` of internal/rules/compiler.go, and the registry of contracts of
-- internal/adapters/memory/contract_registry.go.
pub mod Laws
pub mod Registry
mod Tests
use kafka_simulate_rule.Prelude.{
  some, ◌||◌, [], false, str_eq, none, Option, ◌<>◌, if◌then◌else◌, Bool, List, ◌∷◌, String,
}
use kafka_simulate_rule.Domain.Values.{Runtime}
use kafka_simulate_rule.Rules.Path.{after_root}
use kafka_simulate_rule.Domain.Result.{wrapped, or_fail, Result}
use kafka_simulate_rule.Domain.Rule.{
  nil_pointer, done, nil_slice, pointer, Pointer, next, Pointers, slice, Slice, predicate,
  Predicate, CompiledRule,
}
use kafka_simulate_rule.Domain.Errors.{message, GoError}
use kafka_simulate_rule.Domain.Event.{is_empty}
use kafka_simulate_rule.Rules.Validation.{or_else}

-- The fields of a schema are a map from their names; `fields` are the names.
pub record ContractSchema : Type 0 where
  pub name : String
  pub version : String
  pub fields : List String

abbrev pub has_field : String → List String → Bool
has_field field [] = false
has_field field (f ∷ fs) = str_eq f field || has_field field fs

-- `strings.TrimPrefix(path, "$.")`
unfoldable pub trim_root : String → String
unfolding after_root
trim_root path = elim (after_root path) [ none ↦ path | some rest ↦ rest ]

module _ (go : Runtime) (schema : ContractSchema) where
  unfoldable pub validate_path : String → Option GoError
  unfolding trim_root
  validate_path path =
      if is_empty path
      then none
      else if has_field (trim_root path) schema.fields
      then none
      else some (
          message (
            "path "
            <> (go.quote path
                <> (" not found in contract " <> (schema.name <> ("@" <> schema.version))))))

  unfoldable mutual
    unfolding validate_path

    pub validate_predicate_paths : Predicate → Option GoError
    validate_predicate_paths (predicate all any negated path op v) =
        or_else (validate_slice_paths all) (
          or_else (validate_slice_paths any)
            (or_else (validate_pointer_paths negated) (validate_path path)))

    pub validate_slice_paths : Slice → Option GoError
    validate_slice_paths nil_slice = none
    validate_slice_paths (slice ps) = validate_each_path ps

    pub validate_each_path : Pointers → Option GoError
    validate_each_path done = none
    validate_each_path (next p ps) = or_else (validate_pointer_paths p) (validate_each_path ps)

    pub validate_pointer_paths : Pointer → Option GoError
    validate_pointer_paths nil_pointer = none
    validate_pointer_paths (pointer p) = validate_predicate_paths p

  unfoldable pub validate_paths_against_contract : List CompiledRule → Option GoError
  unfolding validate_predicate_paths
  validate_paths_against_contract [] = none
  validate_paths_against_contract (rule ∷ rules) =
      or_else (wrapped ("rule " <> (rule.id <> ": ")) (validate_predicate_paths rule.condition))
        (validate_paths_against_contract rules)

-- The map of the registry: an entry is put before the older ones, and the first of a key counts.
abbrev pub ContractRegistry : Type 0
ContractRegistry = List (String × ContractSchema)

abbrev pub registry_key : String → String → String
registry_key name version = name <> (":" <> version)

unfoldable pub find_schema : String → ContractRegistry → Option ContractSchema
find_schema key [] = none
find_schema key ((k, schema) ∷ registry) =
    if str_eq k key then some schema else find_schema key registry

unfoldable pub get_contract : ContractRegistry → String → String → Result ContractSchema
unfolding find_schema
get_contract registry name version =
    or_fail (find_schema (registry_key name version) registry)
      (message ("contract " <> (name <> ("@" <> (version <> " not found")))))

abbrev pub drop_key : String → ContractRegistry → ContractRegistry
drop_key key [] = []
drop_key key ((k, schema) ∷ registry) =
    let rest = drop_key key registry in if str_eq k key then rest else (k, schema) ∷ rest

unfoldable pub register_contract : ContractRegistry → ContractSchema → ContractRegistry
register_contract registry schema =
    let key = registry_key schema.name schema.version in (key, schema) ∷ drop_key key registry

unfoldable pub list_contracts : ContractRegistry → String → List ContractSchema
list_contracts [] name = []
list_contracts ((k, schema) ∷ registry) name =
    let rest = list_contracts registry name in
    if str_eq schema.name name then schema ∷ rest else rest
