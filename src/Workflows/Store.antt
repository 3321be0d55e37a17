-- ===== src/Workflows/Store.antt =====
-- internal/adapters/mongo/workflow.go: the workflow repository on a collection of the MongoDB driver. The driver
-- is outside: its operations are the fields of a record.
use kafka_simulate_rule.Prelude.{
  zero, ◌&&◌, suc, negsuc, ◌==◌, none, str_eq, ℕ, pos, if◌then◌else◌, some, Bool, String, ℤ, Option,
}
use kafka_simulate_rule.Domain.Event.{is_empty, Time}
use kafka_simulate_rule.Domain.Result.{◌>>=◌, ok, err, with_context, Result}
use kafka_simulate_rule.Domain.Workflow.{WorkflowInstance}
use kafka_simulate_rule.Domain.Errors.{workflow_conflict, sentinel, wrap, GoError}
use kafka_simulate_rule.Workflows.{WorkflowRepository}

pub record WorkflowDoc : Type 0 where
  pub workflow_id : String
  pub tenant_id : String
  pub correlation_id : String
  pub workflow_type : String
  pub state : String
  pub version : ℤ
  pub current_revision : ℤ
  pub context : String
  pub created_at : Time
  pub updated_at : Time
  pub completed_at : Option Time

-- `json.Unmarshal` of the context; nothing is kept of an error.
pub workflow_doc_from_domain : (String → String) → WorkflowInstance → WorkflowDoc
workflow_doc_from_domain correlation_of w = record {
  workflow_id = w.workflow_id;
  tenant_id = w.tenant_id;
  correlation_id = if is_empty w.context then "" else correlation_of w.context;
  workflow_type = w.workflow_type;
  state = w.state;
  version = w.version;
  current_revision = w.current_revision;
  context = w.context;
  created_at = w.created_at;
  updated_at = w.updated_at;
  completed_at = w.completed_at;
}

abbrev pub to_domain : WorkflowDoc → WorkflowInstance
to_domain d = record {
  workflow_id = d.workflow_id;
  tenant_id = d.tenant_id;
  workflow_type = d.workflow_type;
  state = d.state;
  version = d.version;
  current_revision = d.current_revision;
  context = d.context;
  created_at = d.created_at;
  updated_at = d.updated_at;
  completed_at = d.completed_at;
}

-- The fields of `$set`; `$inc` adds one to the version.
pub record Change : Type 0 where
  pub state : String
  pub current_revision : ℤ
  pub context : String
  pub updated_at : Time
  pub completed_at : Option Time

pub data InsertError : Type 0 where
  duplicate_key : GoError → InsertError
  other_error : GoError → InsertError

-- `FindOne` without a document is `ok none`. `UpdateOne` answers with the number of matches.
pub record Collection (S : Type 0) : Type 0 where
  pub insert_one : S → WorkflowDoc → Option InsertError × S
  pub find_one : S → String → String → Result (Option WorkflowDoc)
  pub update_one : S → String → String → ℤ → Change → Result ℕ × S

-- `version - 1` on an int64, which wraps around.
abbrev pub decrement : ℤ → ℤ
decrement (pos zero) = negsuc 0
decrement (pos (suc n)) = pos n
decrement (negsuc n) = if n == 9223372036854775807 then pos 9223372036854775807 else negsuc (suc n)

abbrev pub same_workflow_create_identity : String → String → WorkflowInstance → Bool
same_workflow_create_identity tenant_id workflow_type requested =
    str_eq tenant_id requested.tenant_id && str_eq workflow_type requested.workflow_type

abbrev pub find_as_domain : Option WorkflowDoc → Option WorkflowInstance
find_as_domain none = none
find_as_domain (some d) = some (to_domain d)

abbrev pub change_of : WorkflowInstance → Time → Change
change_of w now = record {
  state = w.state;
  current_revision = w.current_revision;
  context = w.context;
  updated_at = if w.updated_at == 0 then now else w.updated_at;
  completed_at = w.completed_at;
}

abbrev pub after_update {ℓ} : {S : Type ℓ} → Result ℕ × S → Option GoError × S
after_update (err e, st) = (some (wrap "update workflow: " e), st)
after_update (ok zero, st) = (some (sentinel workflow_conflict), st)
after_update (ok (suc n), st) = (none, st)

module _ {S : Type 0} (coll : Collection S) (time_now : S → Time)
    (correlation_of : String → String) where
  unfoldable pub get_doc : S → String → String → Result (Option WorkflowInstance)
  get_doc st tenant_id workflow_id =
      with_context (wrap "get workflow: ") (coll.find_one st workflow_id tenant_id) >>= λ found.
      ok (find_as_domain found)

  abbrev pub verify_duplicate : WorkflowInstance → Result (Option WorkflowInstance) → Option GoError
  verify_duplicate w (err e) = some (wrap "verify duplicate workflow: " e)
  verify_duplicate w (ok none) = some (sentinel workflow_conflict)
  verify_duplicate w (ok (some existing)) =
      if same_workflow_create_identity existing.tenant_id existing.workflow_type w
      then none
      else some (sentinel workflow_conflict)

  unfoldable pub after_insert : WorkflowInstance → Option InsertError × S → Option GoError × S
  unfolding get_doc
  after_insert w (none, st) = (none, st)
  after_insert w (some (other_error e), st) = (some (wrap "save workflow: " e), st)
  after_insert w (some (duplicate_key e), st) =
      (verify_duplicate w (get_doc st w.tenant_id w.workflow_id), st)

  unfoldable pub save_doc : S → WorkflowInstance → Option GoError × S
  unfolding after_insert workflow_doc_from_domain
  save_doc st w = after_insert w (coll.insert_one st (workflow_doc_from_domain correlation_of w))

  unfoldable pub update_doc : S → WorkflowInstance → Option GoError × S
  update_doc st w = after_update (
      coll.update_one st w.workflow_id w.tenant_id (decrement w.version)
        (change_of w (time_now st)))

  -- `WorkflowRepository`
  unfoldable pub repository : WorkflowRepository S
  unfolding save_doc get_doc update_doc
  repository = record { save = save_doc; get = get_doc; update = update_doc }
