-- ===== src/Domain/Workflow.antt =====
-- internal/domain/types.go: workflow instances, whose state is a string.
pub mod Laws
mod Tests
use kafka_simulate_rule.Prelude.{
  increment, ◌<>◌, zero, none, [], suc, negsuc, ◌||◌, some, ◌∷◌, ◌==◌, str_eq, false, if◌then◌else◌,
  pos, Bool, String, List, Option, ℤ,
}
use kafka_simulate_rule.Domain.Event.{Time}
use kafka_simulate_rule.Domain.Result.{err, ok, Result}
use kafka_simulate_rule.Domain.Errors.{message}

pub record WorkflowInstance : Type 0 where
  pub workflow_id : String
  pub tenant_id : String
  pub workflow_type : String
  pub state : String
  pub version : ℤ
  pub current_revision : ℤ
  pub context : String
  pub created_at : Time
  pub updated_at : Time
  pub completed_at : Option Time

abbrev pub workflow_status_pending : String
workflow_status_pending = "pending"

abbrev pub workflow_status_running : String
workflow_status_running = "running"

abbrev pub workflow_status_completed : String
workflow_status_completed = "completed"

abbrev pub workflow_status_failed : String
workflow_status_failed = "failed"

abbrev pub workflow_status_paused : String
workflow_status_paused = "paused"

-- The map `validTransitions`: `none` is a missing key.
unfoldable pub valid_transitions : String → Option (List String)
valid_transitions from =
    if str_eq from workflow_status_pending
    then some (workflow_status_running ∷ workflow_status_failed ∷ [])
    else if str_eq from workflow_status_running
    then some (workflow_status_completed ∷ workflow_status_failed ∷ workflow_status_paused ∷ [])
    else if str_eq from workflow_status_paused
    then some (workflow_status_running ∷ workflow_status_failed ∷ [])
    else if str_eq from workflow_status_completed
    then some []
    else if str_eq from workflow_status_failed
    then some []
    else none

-- `for _, s := range next { if s == to { return true } }`
unfoldable pub contains : List String → String → Bool
contains [] to = false
contains (s ∷ next) to = str_eq s to || contains next to

unfoldable pub contained : Option (List String) → String → Bool
unfolding contains
contained none to = false
contained (some next) to = contains next to

unfoldable pub can_transition : String → String → Bool
unfolding valid_transitions
can_transition from to = contained (valid_transitions from) to

abbrev pub is_final : String → Bool
is_final to = str_eq to workflow_status_completed || str_eq to workflow_status_failed

-- On an error the receiver stays as it was.
unfoldable pub transition : WorkflowInstance → String → Time → Result WorkflowInstance
unfolding increment can_transition
transition w to now =
    if can_transition w.state to
    then ok (record w {
      state = to;
      version = increment w.version;
      updated_at = now;
      completed_at = if is_final to then some now else w.completed_at;
    })
    else err (message ("invalid workflow transition: " <> (w.state <> (" -> " <> to))))
