-- ===== src/Workflows/Reads.antt =====
-- What a transition that passed its checks has read (internal/services/workflow/service.go).
use kafka_simulate_rule.Workflows.{finish_update, after_get, prepare}
use kafka_simulate_rule.Domain.Workflow.{can_transition, WorkflowInstance, transition}
use kafka_simulate_rule.Prelude.{
  arith, false, str_eq, if◌then◌else◌, ◌&&◌, subst, not, Bool, refl, none, some, increment, true,
  ◌≡◌, ℤ, Option, String,
}
use kafka_simulate_rule.Domain.Result.{err, ok, Result}
use kafka_simulate_rule.Domain.Event.{is_empty, Time}
use kafka_simulate_rule.Domain.Result.Inversion.{ok-injective, >>=-eq-ok, if-eq-ok}
use kafka_simulate_rule.Domain.Errors.{GoError}

-- An instance that is ready to be written, and the one that it was read as.
pub record Prepared (old next : WorkflowInstance) : Type 0 where
  pub edge : can_transition old.state next.state ≡ true
  pub counted : next.version ≡ increment old.version
  pub same_id : next.workflow_id ≡ old.workflow_id
  pub same_tenant : next.tenant_id ≡ old.tenant_id

finish_update-Prepared :
    (w : WorkflowInstance) (revision : Option ℤ) (to : String) (now then_now : Time)
    → can_transition w.state to ≡ true
    → (w1 : WorkflowInstance) → transition w to then_now ≡ ok w1
    → Prepared w (finish_update revision to now w1)
unfolding transition
finish_update-Prepared w none to now then_now edge w1 h =
    let e = if-eq-ok (can_transition w.state to) _ h in
    subst (λ z. Prepared w (finish_update none to now z)) e.1
      (record { edge = edge; counted = refl; same_id = refl; same_tenant = refl })
finish_update-Prepared w (some revision) to now then_now edge w1 h =
    let e = if-eq-ok (can_transition w.state to) _ h in
    subst (λ z. Prepared w (finish_update (some revision) to now z)) e.1
      (record { edge = edge; counted = refl; same_id = refl; same_tenant = refl })

guard-eq-ok :
    {A : Type 0} (b : Bool) (e : GoError) (m : Result A) (a : A)
    → (if b then err e else m) ≡ ok a
    → (b ≡ false) × (m ≡ ok a)
guard-eq-ok true e m a h = cc h
guard-eq-ok false e m a h = (refl, h)

prepare-Prepared :
    (w : WorkflowInstance) (expected_from to : String) (revision : Option ℤ) (now : Time)
    (next : WorkflowInstance)
    → prepare w expected_from to revision now ≡ ok next
    → Prepared w next
unfolding prepare
prepare-Prepared w expected_from to revision now next h =
    let a =
      guard-eq-ok (not (is_empty expected_from) && not (str_eq w.state expected_from)) _ _ next h in
    let b = guard-eq-ok (not (can_transition w.state to)) _ _ next a.1 in
    let c = >>=-eq-ok (transition w to now) (λ w1. ok (finish_update revision to now w1)) b.1 in
    let edge : can_transition w.state to ≡ true = ground (arith, b.0) in
    subst (Prepared w) (ok-injective c.2)
      (finish_update-Prepared w revision to now now edge c.0 c.1)

pub after_get-Prepared :
    (r : Result (Option WorkflowInstance)) (expected_from to : String) (revision : Option ℤ)
    (now : Time) (next : WorkflowInstance)
    → after_get r expected_from to revision now ≡ ok next
    → (w : WorkflowInstance) × (r ≡ ok (some w)) × Prepared w next
unfolding after_get
after_get-Prepared (err e) expected_from to revision now next h = cc h
after_get-Prepared (ok none) expected_from to revision now next h = cc h
after_get-Prepared (ok (some w)) expected_from to revision now next h =
    (w, refl, prepare-Prepared w expected_from to revision now next h)
