-- ===== src/Events/Again.antt =====
-- An event that is delivered again to `Process` of internal/services/events/service.go.
use kafka_simulate_rule.Domain.Values.{Runtime}
use kafka_simulate_rule.Events.{Repositories, RuleEvaluator}
use kafka_simulate_rule.Domain.Execution.{Execution}
use kafka_simulate_rule.Prelude.{none, true, List, some, String, ◌≡◌}
use kafka_simulate_rule.Domain.Result.{ok}
use kafka_simulate_rule.Domain.Outbox.{InboxEntry, OutboxEffect}

module _ {S : Type 0} (go : Runtime) (evaluator : RuleEvaluator) (repos : Repositories S) where
  -- What is documented of the repositories: an insert that reports a new row leaves a row; a mark updates
  -- the row that is there; an execution is saved unless its ID is there already; a write to one table
  -- leaves the others as they are; and what is committed is read in a later transaction.
  pub record IsLawful : Type 0 where
    pub insert_get :
        (s s' : S) (entry : InboxEntry)
        → repos.inbox_insert s entry ≡ ok (true, s')
        → (row : InboxEntry) × (repos.inbox_get s' entry.tenant_id entry.event_id ≡ ok (some row))
    pub save_get :
        (s s' : S) (x : Execution)
        → repos.executions_save s x ≡ ok s'
        → (y : Execution) × (repos.executions_get s' x.id ≡ ok (some y))
          × (y.id ≡ x.id)
          × (repos.executions_get s x.id ≡ ok none → y ≡ x)
    pub save_keeps :
        (s s' : S) (x : Execution) (tenant event : String)
        → repos.executions_save s x ≡ ok s'
        → repos.inbox_get s' tenant event ≡ repos.inbox_get s tenant event
    pub outbox_keeps :
        (s s' : S) (efs : List OutboxEffect) (tenant event id : String)
        → repos.outbox_insert s efs ≡ ok s'
        → (repos.inbox_get s' tenant event ≡ repos.inbox_get s tenant event)
          × (repos.executions_get s' id ≡ repos.executions_get s id)
    pub mark_keeps :
        (s s' : S) (tenant event execution id : String)
        → repos.inbox_mark_committed s tenant event execution ≡ ok s'
        → repos.executions_get s' id ≡ repos.executions_get s id
    pub mark_get :
        (s s' : S) (tenant event execution : String) (row : InboxEntry)
        → repos.inbox_get s tenant event ≡ ok (some row)
        → repos.inbox_mark_committed s tenant event execution ≡ ok s'
        → (entry : InboxEntry) × (repos.inbox_get s' tenant event ≡ ok (some entry))
          × (entry.execution_id ≡ execution)
    pub commit_keeps :
        (s s' : S) (tenant event id : String)
        → repos.commit s ≡ ok s'
        → (repos.inbox_get s' tenant event ≡ repos.inbox_get s tenant event)
          × (repos.executions_get s' id ≡ repos.executions_get s id)
    pub begin_keeps :
        (s s' : S) (tenant event id : String)
        → repos.begin s ≡ ok s'
        → (repos.inbox_get s' tenant event ≡ repos.inbox_get s tenant event)
          × (repos.executions_get s' id ≡ repos.executions_get s id)
