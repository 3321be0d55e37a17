-- ===== src/Workflows/Versions.antt =====
-- The version check of internal/adapters/mongo/workflow.go against concurrent transitions.
use kafka_simulate_rule.Workflows.Store.{
  change_of, after_update, update_doc, Change, repository, to_domain, get_doc, find_as_domain,
  WorkflowDoc, decrement, Collection,
}
use kafka_simulate_rule.Prelude.{
  subst, zero, ◌∙◌, ◌⊎◌, inr, sym, refl, false, ap, none, true, arith, ℤ, inl, ◌==◌, some, suc,
  if◌then◌else◌, Bool-cases, ◌≡◌, ◌≢◌, String, pos, Option, increment, ℕ, Bool,
}
use kafka_simulate_rule.Domain.Errors.{wrap, GoError}
use kafka_simulate_rule.Domain.Event.{is_empty, Time}
use kafka_simulate_rule.Domain.Result.{with_context, ok, err, Result}
use kafka_simulate_rule.Domain.Workflow.{WorkflowInstance}
use kafka_simulate_rule.Workflows.Concurrent.{Applied, Answer, IsCurrent, IsCollection, max_int64}
use kafka_simulate_rule.Workflows.{read, write, Clock}
use kafka_simulate_rule.Domain.Result.Inversion.{ok-injective, with_context-eq-ok, >>=-eq-ok}
use kafka_simulate_rule.Workflows.Reads.{Prepared, after_get-Prepared}

decrement-increment : (n : ℕ) → decrement (increment (pos n)) ≡ pos n
unfolding increment
decrement-increment n = elim (Bool-cases (n == 9223372036854775807)) [
  | inl e ↦ let same : n ≡ max_int64 = ground (arith, e) in rw e (ap pos (sym same))
  | inr e ↦ rw e refl
]

pub increment-suc : (n : ℕ) → pos n ≢ pos max_int64 → increment (pos n) ≡ pos (suc n)
unfolding increment
increment-suc n h = elim (Bool-cases (n == 9223372036854775807)) [
  | inl e ↦ let same : n ≡ max_int64 = ground (arith, e) in absurd (h (ap pos same))
  | inr e ↦ rw e refl
]

pos-injective : (m n : ℕ) → pos m ≡ pos n → m ≡ n
pos-injective m n h = cc h

found-eq-some :
    (o : Option WorkflowDoc) (w : WorkflowInstance)
    → find_as_domain o ≡ some w
    → (d : WorkflowDoc) × (o ≡ some d) × (to_domain d ≡ w)
found-eq-some none w h = cc h
found-eq-some (some d) w h = (d, refl, cc h)

tenant-eq-ok :
    {A : Type 0} (b : Bool) (e : GoError) (m : Result A) (a : A)
    → (if b then err e else m) ≡ ok a
    → m ≡ ok a
tenant-eq-ok true e m a h = cc h
tenant-eq-ok false e m a h = h

module _ {S : Type 0} (coll : Collection S) (time_now : S → Time) (correlation_of : String → String)
    (clock : Clock S) (workflow_id tenant_id : String) (rows : S → Option WorkflowDoc)
    (laws : IsCollection coll time_now correlation_of clock workflow_id tenant_id rows) where
  get_doc-rows :
      (st : S) (w : WorkflowInstance)
      → get_doc coll time_now correlation_of st tenant_id workflow_id ≡ ok (some w)
      → (d : WorkflowDoc) × (rows st ≡ some d) × (to_domain d ≡ w)
  unfolding get_doc
  get_doc-rows st w h =
      let a =
        >>=-eq-ok (with_context (wrap "get workflow: ") (coll.find_one st workflow_id tenant_id))
          (λ found. ok (find_as_domain found)) h in
      let b =
        with_context-eq-ok (wrap "get workflow: ") (coll.find_one st workflow_id tenant_id) a.1 in
      let c = found-eq-some a.0 w (ok-injective a.2) in (c.0, sym (laws.find st a.0 b) ∙ c.1, c.2)

  abbrev Current : S → WorkflowInstance → Type 0
  Current st w = IsCurrent coll time_now correlation_of clock workflow_id tenant_id rows (rows st) w

  -- What was just read is current.
  pub read-IsCurrent :
      (st : S) (d : WorkflowDoc) (version : ℕ) (expected_from to : String) (revision : Option ℤ)
      (w : WorkflowInstance)
      → rows st ≡ some d
      → d.version ≡ pos version
      → read
          (repository coll time_now correlation_of)
          clock
          st
          tenant_id
          workflow_id
          expected_from
          to
          revision
        ≡ ok w
      → Current st w
  unfolding read repository
  read-IsCurrent st d version expected_from to revision w here versioned h =
      let a = tenant-eq-ok (is_empty tenant_id) _ _ w h in
      let b =
        after_get-Prepared (get_doc coll time_now correlation_of st tenant_id workflow_id)
          expected_from to revision (clock.now st) w a in
      let c = get_doc-rows st b.0 b.1 in
      let both : some c.0 ≡ some d = sym c.1 ∙ here in
      let same : c.0 ≡ d = cc both in
      let as_read : to_domain d ≡ b.0 = ap to_domain (sym same) ∙ c.2 in
      let p : Prepared (to_domain d) w = subst (λ z. Prepared z w) (sym as_read) b.2 in
      let keys = laws.keyed st d here in
      record {
        doc = d;
        here = here;
        version = version;
        read_version = version;
        versioned = versioned;
        read_at = ap decrement (p.counted ∙ ap increment versioned) ∙ decrement-increment version;
        older = omega arith;
        state = d.state;
        edge = p.edge;
        same_state = λ e. refl;
        same_id = p.same_id ∙ keys.0;
        same_tenant = p.same_tenant ∙ keys.1;
      }

  -- What an answer of `UpdateOne` leaves behind.
  Answer-cases :
      (st : S) (v : ℤ) (c : Change) (r : Result ℕ × S)
      → Answer coll time_now correlation_of clock workflow_id tenant_id rows st v c r
      → (rows (after_update r).1 ≡ rows st)
        ⊎ Applied coll time_now correlation_of clock workflow_id tenant_id rows st v c
            (after_update r).1
  Answer-cases st v c (err e, st') a = a
  Answer-cases st v c (ok zero, st') a = inl a
  Answer-cases st v c (ok (suc n), st') a = inr a

  pub write-cases :
      (st : S) (w : WorkflowInstance)
      → w.workflow_id ≡ workflow_id
      → w.tenant_id ≡ tenant_id
      → (rows (write (repository coll time_now correlation_of) clock (ok w) st).1 ≡ rows st)
        ⊎ Applied coll time_now correlation_of clock workflow_id tenant_id rows st
            (decrement w.version)
            (change_of w (time_now st))
            (write (repository coll time_now correlation_of) clock (ok w) st).1
  unfolding write repository update_doc
  write-cases st w i t =
      let c = change_of w (time_now st) in
      let r = coll.update_one st w.workflow_id w.tenant_id (decrement w.version) c in
      Answer-cases st (decrement w.version) c r (
        subst
          (λ x.
            Answer coll time_now correlation_of clock workflow_id tenant_id rows st
              (decrement w.version) c (coll.update_one st x w.tenant_id (decrement w.version) c))
          (sym i)
          (subst
            (λ y.
              Answer coll time_now correlation_of clock workflow_id tenant_id rows st
                (decrement w.version) c (coll.update_one st workflow_id y (decrement w.version) c))
            (sym t) (laws.update st (decrement w.version) c)))
