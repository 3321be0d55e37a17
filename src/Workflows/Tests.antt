-- ===== src/Workflows/Tests.antt =====
-- A collection of one document, and two transitions that race on it.
use kafka_simulate_rule.Workflows.{prepare, after_get, read, Clock, write}
use kafka_simulate_rule.Workflows.Store.{
  get_doc, update_doc, duplicate_key, Change, repository, to_domain, Collection, WorkflowDoc,
}
use kafka_simulate_rule.Workflows.Concurrent.{
  writes, Moved, apply, Answer, reads, max_int64, initially, after, Reach, IsCollection, System,
}
use kafka_simulate_rule.Domain.Workflow.{
  contains, contained, valid_transitions, can_transition, transition, WorkflowInstance,
}
use kafka_simulate_rule.Prelude.{
  increment, ◌⊎◌, refl, ℤ-discrete, inl, if◌then◌else◌, ap, ◌&&◌, none, sym, str_eq, pos, Bool,
  Option, ◌≡◌, ℤ, ℕ, some, ◌∷◌, [], String,
}
use kafka_simulate_rule.Domain.Errors.{message}
use kafka_simulate_rule.Domain.Result.{err, Result, ok}
use kafka_simulate_rule.Domain.Result.Inversion.{ok-injective}
use kafka_simulate_rule.Workflows.Linear.{transitions-linear}

abbrev keyed : WorkflowDoc → WorkflowDoc
keyed d = record d { workflow_id = "wf-1"; tenant_id = "shop" }

abbrev update_by :
    (st : WorkflowDoc) (v : ℤ)
    → Change
    → Dec (st.version ≡ v)
    → Dec (v ≡ pos max_int64)
    → Result ℕ × WorkflowDoc
update_by st v c (no ne) room = (ok 0, st)
update_by st v c (yes e) (yes f) = (err (message "overflow"), st)
update_by st v c (yes e) (no g) = (ok 1, apply c st)

abbrev is_wanted : String → String → Bool
is_wanted workflow_id tenant_id = str_eq workflow_id "wf-1" && str_eq tenant_id "shop"

abbrev coll : Collection WorkflowDoc
coll = record {
  insert_one = λ st d. (some (duplicate_key (message "duplicate")), st);
  find_one = λ st workflow_id tenant_id.
      ok (if is_wanted workflow_id tenant_id then some (keyed st) else none);
  update_one = λ st workflow_id tenant_id v c.
      if is_wanted workflow_id tenant_id
      then update_by st v c (ℤ-discrete st.version v) (ℤ-discrete v (pos max_int64))
      else (ok 0, st);
}

abbrev now : WorkflowDoc → ℕ
now st = 9

abbrev correlation : String → String
correlation context = ""

abbrev test_clock : Clock WorkflowDoc
test_clock = record { now = now; new_id = λ st. "wf-1" }

abbrev rows : WorkflowDoc → Option WorkflowDoc
rows st = some (keyed st)

update_by-Answer :
    (st : WorkflowDoc) (v : ℤ) (c : Change) (a : Dec (st.version ≡ v)) (b : Dec (v ≡ pos max_int64))
    → Answer coll now correlation test_clock "wf-1" "shop" rows st v c (update_by st v c a b)
update_by-Answer st v c (no ne) b = refl
update_by-Answer st v c (yes e) (yes f) = inl refl
update_by-Answer st v c (yes e) (no g) = record {
  doc = keyed st;
  before = refl;
  matched = e;
  room = g;
  after = refl;
}

coll-IsCollection : IsCollection coll now correlation test_clock "wf-1" "shop" rows
coll-IsCollection = record {
  keyed = λ st d h.
      let same : keyed st ≡ d = cc h in
      (
        sym (ap (λ (z : WorkflowDoc). z.workflow_id) same),
        sym (ap (λ (z : WorkflowDoc). z.tenant_id) same),
      );
  find = λ st o h. sym (ok-injective h);
  update =
      λ st v c. update_by-Answer st v c (ℤ-discrete st.version v) (ℤ-discrete v (pos max_int64));
}

abbrev running : WorkflowDoc
running = record {
  workflow_id = "wf-1";
  tenant_id = "shop";
  correlation_id = "";
  workflow_type = "order";
  state = "running";
  version = pos 3;
  current_revision = pos 0;
  context = "";
  created_at = 1;
  updated_at = 2;
  completed_at = none;
}

abbrev completing : WorkflowInstance
completing = record (to_domain running) {
  state = "completed";
  version = pos 4;
  updated_at = 9;
  completed_at = some 9;
}

abbrev initial : System coll now correlation test_clock "wf-1" "shop" rows
initial = record { st = running; attempts = [] }

abbrev attempted : System coll now correlation test_clock "wf-1" "shop" rows
attempted = record { st = running; attempts = completing ∷ [] }

abbrev written : System coll now correlation test_clock "wf-1" "shop" rows
unfolding write repository update_doc
written = record attempted {
  st = (write (repository coll now correlation) test_clock (ok completing) running).1;
}

reads-completing : Reach coll now correlation test_clock "wf-1" "shop" rows initial attempted
unfolding read after_get prepare repository get_doc transition can_transition valid_transitions
    contained contains increment
reads-completing = after initially (reads "running" "completed" none completing refl)

transitions-linear_example :
    (rows written.st ≡ rows attempted.st) ⊎ Moved (rows attempted.st) (rows written.st)
unfolding written
transitions-linear_example =
    transitions-linear coll now correlation test_clock "wf-1" "shop" rows running running 3
      attempted written coll-IsCollection refl refl reads-completing (writes 0 completing refl)
