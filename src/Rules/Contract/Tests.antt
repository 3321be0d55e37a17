-- ===== src/Rules/Contract/Tests.antt =====
-- The theorems on contracts (internal/rules/compiler.go, internal/adapters/memory/contract_registry.go) at a small rule set.
use kafka_simulate_rule.Rules.Contract.{
  validate_paths_against_contract, get_contract, ContractSchema,
}
use kafka_simulate_rule.Prelude.{refl, ◌↔◌, none, ◌≡◌, pos, [], ◌∷◌, String}
use kafka_simulate_rule.Domain.Rule.{
  done, pointer, next, eq, nil_pointer, slice, nil_slice, predicate, Predicate, CompiledRule,
}
use kafka_simulate_rule.Rules.Samples.{small_go}
use kafka_simulate_rule.Domain.Result.{ok}
use kafka_simulate_rule.Rules.Contract.Laws.{validate_paths_against_contract-AllKnown, AllKnown}
use kafka_simulate_rule.Rules.Contract.Registry.{registered-get_contract, registered, latest}
use kafka_simulate_rule.Domain.Values.{null}

abbrev order_contract : ContractSchema
order_contract = record { name = "order"; version = "1"; fields = "total" ∷ "country" ∷ [] }

abbrev leaf : String → Predicate
leaf path = predicate nil_slice nil_slice nil_pointer path eq null

abbrev rule : CompiledRule
rule = record {
  id = "big";
  name = "big";
  description = "";
  tags = [];
  priority = pos 1;
  condition =
      predicate (slice (next (pointer (leaf "$.total")) (next nil_pointer done))) nil_slice
        (pointer (leaf "$.city")) "" eq null;
  actions = [];
  otherwise = [];
}

validate_paths_against_contract-AllKnown_example :
    (validate_paths_against_contract small_go order_contract (rule ∷ []) ≡ none)
    ↔ AllKnown small_go order_contract (rule ∷ [])
validate_paths_against_contract-AllKnown_example =
    validate_paths_against_contract-AllKnown small_go order_contract (rule ∷ [])

abbrev newer_contract : ContractSchema
newer_contract = record { name = "order"; version = "1"; fields = "total" ∷ [] }

abbrev next_contract : ContractSchema
next_contract = record { name = "order"; version = "2"; fields = [] }

registered-get_contract_example :
    get_contract (registered (next_contract ∷ newer_contract ∷ order_contract ∷ [])) "order" "1"
    ≡ ok newer_contract
unfolding latest
registered-get_contract_example =
    registered-get_contract (next_contract ∷ newer_contract ∷ order_contract ∷ []) "order" "1"
      (refl, (refl, (refl, tt))) refl
