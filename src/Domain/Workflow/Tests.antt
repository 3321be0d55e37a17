-- ===== src/Domain/Workflow/Tests.antt =====
-- The theorems on workflows at a concrete run.
use kafka_simulate_rule.Prelude.{
  refl, arith, none, some, increment, Option, ◌+◌, ℕ, ◌≡◌, ℤ, String, pos,
}
use kafka_simulate_rule.Domain.Workflow.{
  is_final, WorkflowInstance, contained, contains, valid_transitions, transition, can_transition,
}
use kafka_simulate_rule.Domain.Workflow.Laws.{start, next, Run-version-final, Run, is_set}

abbrev workflow : String → ℤ → ℕ → Option ℕ → WorkflowInstance
workflow state version updated_at completed_at = record {
  workflow_id = "w-1";
  tenant_id = "acme";
  workflow_type = "order";
  state = state;
  version = version;
  current_revision = pos 0;
  context = "";
  created_at = 1000;
  updated_at = updated_at;
  completed_at = completed_at;
}

finished-Run :
    Run (workflow "pending" (pos 1) 1000 none) 2 (workflow "completed" (pos 3) 1002 (some 1002))
unfolding transition can_transition valid_transitions contains contained increment
finished-Run = next "completed" 1002 (next "running" 1001 start refl) refl

Run-version-final_example : (pos 3 ≡ pos (1 + 2)) × (is_set (some 1002) ≡ is_final "completed")
Run-version-final_example = Run-version-final refl refl refl (omega arith) finished-Run
