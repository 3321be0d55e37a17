-- ===== src/Workflows/Concurrent.antt =====
-- Transitions of one workflow instance by several processes at once: internal/services/workflow/service.go over the
-- repository of internal/adapters/mongo/workflow.go.
use kafka_simulate_rule.Prelude.{
  ◌∷◌, ◌++◌, ◌≤◌, get_elem?, List, zero, [], ◌⊎◌, suc, pos, true, ◌≢◌, ℤ, some, ◌≡◌, String, ℕ,
  increment, Option,
}
use kafka_simulate_rule.Workflows.Store.{repository, decrement, Change, WorkflowDoc, Collection}
use kafka_simulate_rule.Domain.Event.{Time}
use kafka_simulate_rule.Workflows.{write, read, Clock}
use kafka_simulate_rule.Domain.Workflow.{WorkflowInstance, can_transition}
use kafka_simulate_rule.Domain.Result.{err, Result, ok}

abbrev pub max_int64 : ℕ
max_int64 = 9223372036854775807

abbrev pub apply : Change → WorkflowDoc → WorkflowDoc
apply c d = record d {
  state = c.state;
  version = increment d.version;
  current_revision = c.current_revision;
  context = c.context;
  updated_at = c.updated_at;
  completed_at = c.completed_at;
}

-- The document went one edge of the state machine and one version on.
pub record Moved (before after : Option WorkflowDoc) : Type 0 where
  pub old : WorkflowDoc
  pub next : WorkflowDoc
  pub was : before ≡ some old
  pub is : after ≡ some next
  pub edge : can_transition old.state next.state ≡ true
  pub counted : next.version ≡ increment old.version

module _ {S : Type 0} (coll : Collection S) (time_now : S → Time) (correlation_of : String → String)
    (clock : Clock S) (workflow_id tenant_id : String) (rows : S → Option WorkflowDoc) where
  -- The document that matched the filter was changed. `$inc` refuses a version that it would overflow.
  pub record Applied (st : S) (v : ℤ) (c : Change) (st' : S) : Type 0 where
    pub doc : WorkflowDoc
    pub before : rows st ≡ some doc
    pub matched : doc.version ≡ v
    pub room : v ≢ pos max_int64
    pub after : rows st' ≡ some (apply c doc)

  -- An error of `UpdateOne` leaves open whether the update was made.
  abbrev pub Answer : S → ℤ → Change → Result ℕ × S → Type 0
  Answer st v c (ok zero, st') = rows st' ≡ rows st
  Answer st v c (ok (suc n), st') = Applied st v c st'
  Answer st v c (err e, st') = (rows st' ≡ rows st) ⊎ Applied st v c st'

  -- What MongoDB documents of the operations on the document with these two keys.
  pub record IsCollection : Type 0 where
    pub keyed :
        (st : S) (d : WorkflowDoc)
        → rows st ≡ some d
        → (d.workflow_id ≡ workflow_id) × (d.tenant_id ≡ tenant_id)
    pub find :
        (st : S) (o : Option WorkflowDoc)
        → coll.find_one st workflow_id tenant_id ≡ ok o
        → o ≡ rows st
    pub update :
        (st : S) (v : ℤ) (c : Change) → Answer st v c (coll.update_one st workflow_id tenant_id v c)

  -- `attempts` are the instances that transitions have read, checked and changed, and have not written yet; a
  -- process may also give one up, or write it again after an error.
  pub record System : Type 0 where
    pub st : S
    pub attempts : List WorkflowInstance

  pub data Step (s : System) : System → Type 0 where
    reads :
        (expected_from to : String) (revision : Option ℤ) (w : WorkflowInstance)
        → read
            (repository coll time_now correlation_of)
            clock
            s.st
            tenant_id
            workflow_id
            expected_from
            to
            revision
          ≡ ok w
        → Step s (record s { attempts = s.attempts ++ w ∷ [] })
    writes :
        (i : ℕ) (w : WorkflowInstance)
        → get_elem? s.attempts i ≡ some w
        → Step s (record s {
          st = (write (repository coll time_now correlation_of) clock (ok w) s.st).1;
        })
    -- Anything that leaves the document alone.
    elsewhere : (st : S) → rows st ≡ rows s.st → Step s (record s { st = st })

  pub data Reach (s : System) : System → Type 0 where
    initially : Reach s s
    after : {t u : System} → Reach s t → Step t u → Reach s u

  -- An attempt against the document as it is: it was read at a version that is at most the present one, and
  -- if that is still the present one, in the present state.
  pub record IsCurrent (o : Option WorkflowDoc) (w : WorkflowInstance) : Type 0 where
    pub doc : WorkflowDoc
    pub here : o ≡ some doc
    pub version : ℕ
    pub read_version : ℕ
    pub versioned : doc.version ≡ pos version
    pub read_at : decrement w.version ≡ pos read_version
    pub older : read_version ≤ version
    pub state : String
    pub edge : can_transition state w.state ≡ true
    pub same_state : read_version ≡ version → doc.state ≡ state
    pub same_id : w.workflow_id ≡ workflow_id
    pub same_tenant : w.tenant_id ≡ tenant_id

  pub record IsValid (s : System) : Type 0 where
    pub doc : WorkflowDoc
    pub here : rows s.st ≡ some doc
    pub version : ℕ
    pub versioned : doc.version ≡ pos version
    pub current :
        (i : ℕ) (w : WorkflowInstance) → get_elem? s.attempts i ≡ some w → IsCurrent (rows s.st) w
