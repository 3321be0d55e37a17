-- ===== src/Domain/Errors.antt =====
-- internal/domain/errors.go: the sentinel errors, the trees that `fmt.Errorf` and `errors.Join` build
-- of them, and their classes. A sentinel is a pointer of its own, so `errors.Is` compares identities.
pub mod Laws
use kafka_simulate_rule.Prelude.{
  ℕ, Bool, true, false, ◌||◌, ◌==◌, if◌then◌else◌, List, [], ◌∷◌, Option, none, some, String, ◌<>◌,
}

pub data Sentinel : Type 0 where
  event_id_required event_type_required tenant_id_required partition_key_required : Sentinel
  occurred_at_required invalid_event_envelope rule_id_required revision_required : Sentinel
  rule_source_required invalid_match_mode invalid_operator invalid_predicate : Sentinel
  invalid_action duplicate_rule_id ambiguous_priority unknown_destination : Sentinel
  destination_not_allowed rule_exceeds_limits invalid_rule_schema rule_not_found : Sentinel
  rule_not_active rule_not_ready effect_id_required execution_id_required : Sentinel
  invalid_effect_type effect_not_found max_attempts_exceeded outbox_claim_lost : Sentinel
  execution_not_found invalid_execution_status execution_already_exists : Sentinel
  inbox_entry_not_found inbox_duplicate inbox_invalid_status lease_not_found lease_expired :
      Sentinel
  lease_owned_by_other fencing_token_mismatch quarantine_not_found : Sentinel
  quarantine_replay_failed activation_not_found activation_conflict workflow_not_found : Sentinel
  workflow_conflict workflow_invalid_transition batch_processing_unavailable : Sentinel
  domain_service_conflict broker_fetch_failed broker_ack_failed broker_retry_failed : Sentinel
  effect_send_failed effect_destination_down database_error transaction_failed : Sentinel
  serialization_failed deserialization_failed unauthorized forbidden evaluation_timeout : Sentinel
  evaluation_error fact_snapshot_required invalid_fact_path : Sentinel

-- The identity of a sentinel.
abbrev pub identity : Sentinel → ℕ
identity event_id_required = 0
identity event_type_required = 1
identity tenant_id_required = 2
identity partition_key_required = 3
identity occurred_at_required = 4
identity invalid_event_envelope = 5
identity rule_id_required = 6
identity revision_required = 7
identity rule_source_required = 8
identity invalid_match_mode = 9
identity invalid_operator = 10
identity invalid_predicate = 11
identity invalid_action = 12
identity duplicate_rule_id = 13
identity ambiguous_priority = 14
identity unknown_destination = 15
identity destination_not_allowed = 16
identity rule_exceeds_limits = 17
identity invalid_rule_schema = 18
identity rule_not_found = 19
identity rule_not_active = 20
identity rule_not_ready = 21
identity effect_id_required = 22
identity execution_id_required = 23
identity invalid_effect_type = 24
identity effect_not_found = 25
identity max_attempts_exceeded = 26
identity outbox_claim_lost = 27
identity execution_not_found = 28
identity invalid_execution_status = 29
identity execution_already_exists = 30
identity inbox_entry_not_found = 31
identity inbox_duplicate = 32
identity inbox_invalid_status = 33
identity lease_not_found = 34
identity lease_expired = 35
identity lease_owned_by_other = 36
identity fencing_token_mismatch = 37
identity quarantine_not_found = 38
identity quarantine_replay_failed = 39
identity activation_not_found = 40
identity activation_conflict = 41
identity workflow_not_found = 42
identity workflow_conflict = 43
identity workflow_invalid_transition = 44
identity batch_processing_unavailable = 45
identity domain_service_conflict = 46
identity broker_fetch_failed = 47
identity broker_ack_failed = 48
identity broker_retry_failed = 49
identity effect_send_failed = 50
identity effect_destination_down = 51
identity database_error = 52
identity transaction_failed = 53
identity serialization_failed = 54
identity deserialization_failed = 55
identity unauthorized = 56
identity forbidden = 57
identity evaluation_timeout = 58
identity evaluation_error = 59
identity fact_snapshot_required = 60
identity invalid_fact_path = 61

-- The text that `Error()` returns.
pub sentinel_text : Sentinel → String
sentinel_text event_id_required = "event id is required"
sentinel_text event_type_required = "event type is required"
sentinel_text tenant_id_required = "tenant id is required"
sentinel_text partition_key_required = "partition key is required"
sentinel_text occurred_at_required = "occurred at is required"
sentinel_text invalid_event_envelope = "invalid event envelope"
sentinel_text rule_id_required = "rule id is required"
sentinel_text revision_required = "revision is required"
sentinel_text rule_source_required = "rule source is required"
sentinel_text invalid_match_mode = "invalid match mode"
sentinel_text invalid_operator = "invalid operator"
sentinel_text invalid_predicate = "invalid predicate"
sentinel_text invalid_action = "invalid action"
sentinel_text duplicate_rule_id = "duplicate rule id"
sentinel_text ambiguous_priority = "ambiguous priority"
sentinel_text unknown_destination = "unknown destination"
sentinel_text destination_not_allowed = "destination not allowed"
sentinel_text rule_exceeds_limits = "rule exceeds limits"
sentinel_text invalid_rule_schema = "invalid rule schema"
sentinel_text rule_not_found = "rule not found"
sentinel_text rule_not_active = "rule not active"
sentinel_text rule_not_ready = "rule not ready, retry later"
sentinel_text effect_id_required = "effect id is required"
sentinel_text execution_id_required = "execution id is required"
sentinel_text invalid_effect_type = "invalid effect type"
sentinel_text effect_not_found = "effect not found"
sentinel_text max_attempts_exceeded = "max attempts exceeded"
sentinel_text outbox_claim_lost = "outbox claim lost"
sentinel_text execution_not_found = "execution not found"
sentinel_text invalid_execution_status = "invalid execution status"
sentinel_text execution_already_exists = "execution already exists"
sentinel_text inbox_entry_not_found = "inbox entry not found"
sentinel_text inbox_duplicate = "duplicate event id"
sentinel_text inbox_invalid_status = "invalid inbox status"
sentinel_text lease_not_found = "lease not found"
sentinel_text lease_expired = "lease expired"
sentinel_text lease_owned_by_other = "lease owned by another worker"
sentinel_text fencing_token_mismatch = "fencing token mismatch"
sentinel_text quarantine_not_found = "quarantine entry not found"
sentinel_text quarantine_replay_failed = "quarantine replay failed"
sentinel_text activation_not_found = "activation not found"
sentinel_text activation_conflict = "activation conflict"
sentinel_text workflow_not_found = "workflow not found"
sentinel_text workflow_conflict = "workflow version conflict"
sentinel_text workflow_invalid_transition = "invalid workflow state transition"
sentinel_text batch_processing_unavailable = "batch processing is not configured"
sentinel_text domain_service_conflict = "tenant domain or service already exists"
sentinel_text broker_fetch_failed = "broker fetch failed"
sentinel_text broker_ack_failed = "broker ack failed"
sentinel_text broker_retry_failed = "broker retry failed"
sentinel_text effect_send_failed = "effect send failed"
sentinel_text effect_destination_down = "effect destination down"
sentinel_text database_error = "database error"
sentinel_text transaction_failed = "transaction failed"
sentinel_text serialization_failed = "serialization failed"
sentinel_text deserialization_failed = "deserialization failed"
sentinel_text unauthorized = "unauthorized"
sentinel_text forbidden = "forbidden"
sentinel_text evaluation_timeout = "evaluation timeout"
sentinel_text evaluation_error = "evaluation error"
sentinel_text fact_snapshot_required = "fact snapshot required"
sentinel_text invalid_fact_path = "invalid fact path"

-- `fmt.Errorf` with one `%w` is `wrap`, with two `wrap_two`, and with none, or `errors.New`, `message`.
-- A text is the prefix of the message; `errors.Join` of two errors is `wrap_two`.
pub data GoError : Type 0 where
  sentinel : Sentinel → GoError
  message : String → GoError
  wrap : String → GoError → GoError
  wrap_two : String → GoError → GoError → GoError

-- The text of an error: its prefix, then the texts that it wraps.
unfoldable pub error_text : GoError → String
unfolding sentinel_text
error_text (sentinel s) = sentinel_text s
error_text (message m) = m
error_text (wrap m e) = m <> error_text e
error_text (wrap_two m a b) = m <> (error_text a <> (": " <> error_text b))

-- `errors.Is` walks the tree.
unfoldable pub errors_is : GoError → Sentinel → Bool
errors_is (sentinel s) t = identity s == identity t
errors_is (message m) t = false
errors_is (wrap m e) t = errors_is e t
errors_is (wrap_two m a b) t = errors_is a t || errors_is b t

-- A case of the switch: does the error match one of the targets?
unfoldable pub is_one_of : GoError → List Sentinel → Bool
is_one_of e [] = false
is_one_of e (t ∷ ts) = errors_is e t || is_one_of e ts

pub data ErrorClass : Type 0 where
  validation rule evaluation execution effect broker database authorization quarantine internal :
      ErrorClass

-- The string of a class.
unfoldable pub class_text : ErrorClass → String
class_text validation = "validation"
class_text rule = "rule"
class_text evaluation = "evaluation"
class_text execution = "execution"
class_text effect = "effect"
class_text broker = "broker"
class_text database = "database"
class_text authorization = "authorization"
class_text quarantine = "quarantine"
class_text internal = "internal"

abbrev pub validation_errors : List Sentinel
validation_errors =
    event_id_required ∷ event_type_required ∷ tenant_id_required ∷ partition_key_required
    ∷ occurred_at_required ∷ invalid_event_envelope ∷ []

abbrev pub rule_errors : List Sentinel
rule_errors =
    rule_id_required ∷ revision_required ∷ rule_source_required ∷ invalid_match_mode
    ∷ invalid_operator ∷ invalid_predicate ∷ invalid_action ∷ duplicate_rule_id ∷ ambiguous_priority
    ∷ unknown_destination ∷ destination_not_allowed ∷ rule_exceeds_limits ∷ invalid_rule_schema
    ∷ rule_not_found ∷ rule_not_active ∷ []

abbrev pub not_ready_errors : List Sentinel
not_ready_errors = rule_not_ready ∷ []

abbrev pub evaluation_errors : List Sentinel
evaluation_errors =
    evaluation_timeout ∷ evaluation_error ∷ fact_snapshot_required ∷ invalid_fact_path ∷ []

abbrev pub execution_errors : List Sentinel
execution_errors = execution_not_found ∷ invalid_execution_status ∷ execution_already_exists ∷ []

abbrev pub effect_errors : List Sentinel
effect_errors =
    effect_id_required ∷ execution_id_required ∷ invalid_effect_type ∷ effect_not_found
    ∷ max_attempts_exceeded ∷ outbox_claim_lost ∷ []

abbrev pub broker_errors : List Sentinel
broker_errors = broker_fetch_failed ∷ broker_ack_failed ∷ broker_retry_failed ∷ []

abbrev pub database_errors : List Sentinel
database_errors =
    inbox_entry_not_found ∷ inbox_duplicate ∷ inbox_invalid_status ∷ lease_not_found ∷ lease_expired
    ∷ lease_owned_by_other ∷ fencing_token_mismatch ∷ database_error ∷ transaction_failed ∷ []

abbrev pub authorization_errors : List Sentinel
authorization_errors = unauthorized ∷ forbidden ∷ []

abbrev pub quarantine_errors : List Sentinel
quarantine_errors = quarantine_not_found ∷ quarantine_replay_failed ∷ []

-- The switch, case by case in the source's order.
unfoldable pub classify : GoError → ErrorClass
classify e =
    if is_one_of e validation_errors
    then validation
    else if is_one_of e rule_errors
    then rule
    else if is_one_of e not_ready_errors
    then broker
    else if is_one_of e evaluation_errors
    then evaluation
    else if is_one_of e execution_errors
    then execution
    else if is_one_of e effect_errors
    then effect
    else if is_one_of e broker_errors
    then broker
    else if is_one_of e database_errors
    then database
    else if is_one_of e authorization_errors
    then authorization
    else if is_one_of e quarantine_errors
    then quarantine
    else internal

unfoldable pub classify_error : Option GoError → ErrorClass
unfolding classify
classify_error none = internal
classify_error (some e) = classify e

abbrev pub retryable_class : ErrorClass → Bool
retryable_class broker = true
retryable_class effect = true
retryable_class database = true
retryable_class _ = false

abbrev pub permanent_class : ErrorClass → Bool
permanent_class validation = true
permanent_class rule = true
permanent_class evaluation = true
permanent_class authorization = true
permanent_class _ = false

unfoldable pub is_retryable : Option GoError → Bool
unfolding classify_error
is_retryable e = retryable_class (classify_error e)

unfoldable pub is_permanent : Option GoError → Bool
unfolding classify_error
is_permanent e = permanent_class (classify_error e)
