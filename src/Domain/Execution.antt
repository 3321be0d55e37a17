-- ===== src/Domain/Execution.antt =====
-- internal/domain/types.go: the execution of an event and its states. A method that writes to its receiver
-- returns the new receiver, or the error, which leaves the receiver as it was.
pub mod Laws
mod Tests
use kafka_simulate_rule.Domain.Event.{Time}
use kafka_simulate_rule.Prelude.{some, ◌<>◌, false, Option, if◌then◌else◌, ℤ, true, Bool, String}
use kafka_simulate_rule.Domain.Result.{err, ok, Result}
use kafka_simulate_rule.Domain.Errors.{message, GoError}

-- The status is a string in the source, of which the code writes these four.
pub data ExecutionStatus : Type 0 where
  pending completed failed quarantined : ExecutionStatus

pub status_text : ExecutionStatus → String
status_text pending = "pending"
status_text completed = "completed"
status_text failed = "failed"
status_text quarantined = "quarantined"

pub record Execution : Type 0 where
  pub id : String
  pub event_id : String
  pub tenant_id : String
  pub rule_set : String
  pub revision : ℤ
  pub decision_hash : String
  pub status : ExecutionStatus
  pub error : String
  pub trace_id : String
  pub created_at : Time
  pub completed_at : Option Time

abbrev pub is_pending : ExecutionStatus → Bool
is_pending pending = true
is_pending _ = false

abbrev pub refuse : String → ExecutionStatus → GoError
unfolding status_text
refuse verb s = message ("cannot " <> (verb <> (" execution in state " <> status_text s)))

unfoldable pub complete : Execution → Time → Result Execution
complete e now =
    if is_pending e.status
    then ok (record e { status = completed; completed_at = some now })
    else err (refuse "complete" e.status)

unfoldable pub fail : Execution → Time → String → Result Execution
fail e now err_msg =
    if is_pending e.status
    then ok (record e { status = failed; error = err_msg; completed_at = some now })
    else err (refuse "fail" e.status)

unfoldable pub quarantine : Execution → Time → String → Result Execution
quarantine e now err_msg =
    if is_pending e.status
    then ok (record e { status = quarantined; error = err_msg; completed_at = some now })
    else err (refuse "quarantine" e.status)
