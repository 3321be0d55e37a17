-- ===== src/Workflows.antt =====
-- internal/services/workflow/service.go: the workflow service over a repository. A state of the database is
-- passed along, and a write returns the next state.
pub mod Store
pub mod Concurrent
pub mod Reads
pub mod Versions
pub mod Linear
mod Tests
use kafka_simulate_rule.Domain.Result.{◌>>=◌, ok, err, Result}
use kafka_simulate_rule.Prelude.{
  ◌<>◌, pos, str_eq, ◌==◌, pos_part, ◌&&◌, none, not, ℕ, is_positive, some, if◌then◌else◌, ℤ, List,
  String, Option,
}
use kafka_simulate_rule.Domain.Workflow.{is_final, can_transition, WorkflowInstance, transition}
use kafka_simulate_rule.Domain.Event.{is_empty, Time}
use kafka_simulate_rule.Domain.Errors.{
  workflow_invalid_transition, workflow_not_found, sentinel, message, wrap, GoError,
}

-- `none` is a nil error, or a nil pointer. `clock` and `new_id` read at a state.
pub record WorkflowRepository (S : Type 0) : Type 0 where
  pub save : S → WorkflowInstance → Option GoError × S
  pub get : S → String → String → Result (Option WorkflowInstance)
  pub update : S → WorkflowInstance → Option GoError × S

-- The lists of the same repository.
pub record WorkflowLists (S : Type 0) : Type 0 where
  pub by_tenant_and_state : S → String → String → ℕ → Result (List WorkflowInstance)
  pub by_correlation : S → String → String → Result (List WorkflowInstance)

pub record Clock (S : Type 0) : Type 0 where
  pub now : S → Time
  pub new_id : S → String

-- `workflow.CurrentRevision = *revision`, unless the pointer is nil.
abbrev pub set_revision : Option ℤ → WorkflowInstance → WorkflowInstance
set_revision none w = w
set_revision (some revision) w = record w { current_revision = revision }

abbrev pub finish_update : Option ℤ → String → Time → WorkflowInstance → WorkflowInstance
finish_update revision to now w =
    let w1 = set_revision revision w in
    record w1 { updated_at = now; completed_at = if is_final to then some now else w1.completed_at }

-- The checks and changes of `transition` on the instance that was read.
unfoldable pub prepare :
    WorkflowInstance → String → String → Option ℤ → Time → Result WorkflowInstance
unfolding transition can_transition
prepare w expected_from to revision now =
    if not (is_empty expected_from) && not (str_eq w.state expected_from)
    then err (message ("workflow in state " <> (w.state <> (", expected " <> expected_from))))
    else if not (can_transition w.state to)
    then err (sentinel workflow_invalid_transition)
    else transition w to now >>= λ w1. ok (finish_update revision to now w1)

unfoldable pub after_get :
    Result (Option WorkflowInstance) → String → String → Option ℤ → Time → Result WorkflowInstance
unfolding prepare
after_get (err e) expected_from to revision now = err (wrap "get workflow: " e)
after_get (ok none) expected_from to revision now = err (sentinel workflow_not_found)
after_get (ok (some w)) expected_from to revision now = prepare w expected_from to revision now

-- A revision of 64 bits is given for `UpdateState`, and none for `Transition`.
module _ {S : Type 0} (repo : WorkflowRepository S) (clock : Clock S) where
  -- The read of `transition`, with what is to be written.
  unfoldable pub read : S → String → String → String → String → Option ℤ → Result WorkflowInstance
  unfolding after_get
  read st tenant_id workflow_id expected_from to revision =
      if is_empty tenant_id
      then err (sentinel workflow_not_found)
      else after_get (repo.get st tenant_id workflow_id) expected_from to revision (clock.now st)

  unfoldable pub write : Result WorkflowInstance → S → Option GoError × S
  write (err e) st = (some e, st)
  write (ok w) st = repo.update st w

  unfoldable pub transition_in :
      S → String → String → String → String → Option ℤ → Option GoError × S
  unfolding read write
  transition_in st tenant_id workflow_id expected_from to revision =
      write (read st tenant_id workflow_id expected_from to revision) st

  unfoldable pub update_state : S → String → String → String → ℤ → Option GoError × S
  unfolding transition_in
  update_state st tenant_id workflow_id new_state revision =
      transition_in st tenant_id workflow_id "" new_state (some revision)

  unfoldable pub transition_workflow : S → String → String → String → String → Option GoError × S
  unfolding transition_in
  transition_workflow st tenant_id workflow_id from_state to_state =
      transition_in st tenant_id workflow_id from_state to_state none

  abbrev pub created : S → WorkflowInstance → WorkflowInstance
  created st w = record w {
    workflow_id = if is_empty w.workflow_id then clock.new_id st else w.workflow_id;
    created_at = if w.created_at == 0 then clock.now st else w.created_at;
    updated_at = clock.now st;
    version = pos 1;
  }

  unfoldable pub create : S → WorkflowInstance → Option GoError × S
  create st w = repo.save st (created st w)

  unfoldable pub get_workflow : S → String → String → Result (Option WorkflowInstance)
  get_workflow st tenant_id workflow_id =
      if is_empty tenant_id
      then err (sentinel workflow_not_found)
      else repo.get st tenant_id workflow_id

module _ {S : Type 0} (lists : WorkflowLists S) where
  unfoldable pub get_by_tenant_and_state : S → String → String → ℤ → Result (List WorkflowInstance)
  get_by_tenant_and_state st tenant_id state limit =
      lists.by_tenant_and_state st tenant_id state
        (if is_positive limit then pos_part limit else 100)

  unfoldable pub get_by_correlation : S → String → String → Result (List WorkflowInstance)
  get_by_correlation st tenant_id correlation_id =
      if is_empty tenant_id
      then err (message "tenant_id is required")
      else lists.by_correlation st tenant_id correlation_id
