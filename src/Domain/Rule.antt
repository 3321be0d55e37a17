-- ===== src/Domain/Rule.antt =====
-- internal/domain/types.go: compiled rules, predicates, actions, effects and decisions. A Go string
-- type with named constants is a data type with one more constructor for any other text.
use kafka_simulate_rule.Prelude.{Bool, true, false, List, Option, String, ℤ}
use kafka_simulate_rule.Domain.Values.{Value}
use kafka_simulate_rule.Domain.Event.{Time}

pub data MatchMode : Type 0 where
  first_match all_matches : MatchMode
  other_mode : String → MatchMode

pub data Operator : Type 0 where
  eq neq gt gte lt lte is_in not_in exists not_exists : Operator
  other_op : String → Operator

unfoldable pub valid_op : Operator → Bool
valid_op (other_op s) = false
valid_op _ = true

-- A slice is nil or a list of pointers, and a pointer is nil or leads to a predicate.
mutual
  pub data Predicate : Type 0 where
    predicate : Slice → Slice → Pointer → String → Operator → Value → Predicate

  pub data Slice : Type 0 where
    nil_slice : Slice
    slice : Pointers → Slice

  pub data Pointers : Type 0 where
    done : Pointers
    next : Pointer → Pointers → Pointers

  pub data Pointer : Type 0 where
    nil_pointer : Pointer
    pointer : Predicate → Pointer

pub data PartitionKeyPolicy : Type 0 where
  unset explicit inherit from_data : PartitionKeyPolicy
  other_policy : String → PartitionKeyPolicy

pub record EmitAction : Type 0 where
  pub topic : String
  pub payload : String

pub record EmitEventAction : Type 0 where
  pub event_type : String
  pub partition_key : String
  pub partition_key_policy : PartitionKeyPolicy
  pub partition_key_path : String
  pub payload : String

pub record CommandAction : Type 0 where
  pub destination : String
  pub name : String
  pub payload : String

-- `none` is a nil pointer.
pub record Action : Type 0 where
  pub emit : Option EmitAction
  pub emit_event : Option EmitEventAction
  pub command : Option CommandAction

pub record CompiledRule : Type 0 where
  pub id : String
  pub name : String
  pub description : String
  pub tags : List String
  pub priority : ℤ
  pub condition : Predicate
  pub actions : List Action
  pub otherwise : List Action

pub record ContractRef : Type 0 where
  pub name : String
  pub version : String
  pub schema_hash : String

pub record RuleRevision : Type 0 where
  pub tenant_scope : String
  pub rule_id : String
  pub revision : ℤ
  pub content_hash : String
  pub match_mode : MatchMode
  pub compiled : List CompiledRule
  pub source : String
  pub compiler_version : String
  pub input_contract : Option ContractRef
  pub created_at : Time

pub data EffectType : Type 0 where
  untyped emit_effect emit_event_effect command_effect service_event_effect : EffectType

pub record Effect : Type 0 where
  pub id : String
  pub execution_id : String
  pub tenant_id : String
  pub destination : String
  pub name : String
  pub payload : String
  pub effect_type : EffectType
  pub created_at : Time

pub record RuleExplanation : Type 0 where
  pub rule_id : String
  pub rule_name : String
  pub matched : Bool
  pub priority : ℤ
  pub reason : String
  pub actions : List String

pub record Decision : Type 0 where
  pub matched_rules : List String
  pub effects : List Effect
  pub hash : String
  pub explanations : List RuleExplanation
