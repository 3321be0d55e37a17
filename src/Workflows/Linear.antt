-- ===== src/Workflows/Linear.antt =====
-- Concurrent transitions of a workflow instance take effect one after the other.
use kafka_simulate_rule.Workflows.Store.{change_of, decrement, WorkflowDoc, Collection}
use kafka_simulate_rule.Domain.Event.{Time}
use kafka_simulate_rule.Prelude.{
  [], ℕ, inr, refl, arith, increment, true, inl, ap, suc, get_elem?-append_cases, pos, sym, some,
  subst, ◌∙◌, ◌⊎◌, ◌≡◌, Option, String,
}
use kafka_simulate_rule.Workflows.{Clock}
use kafka_simulate_rule.Workflows.Concurrent.{
  elsewhere, writes, apply, reads, Moved, initially, after, IsCurrent, Step, Applied, IsValid,
  Reach, System, IsCollection,
}
use kafka_simulate_rule.Domain.Workflow.{can_transition, WorkflowInstance}
use kafka_simulate_rule.Workflows.Versions.{write-cases, read-IsCurrent, increment-suc}

module _ {S : Type 0} (coll : Collection S) (time_now : S → Time) (correlation_of : String → String)
    (clock : Clock S) (workflow_id tenant_id : String) (rows : S → Option WorkflowDoc)
    (laws : IsCollection coll time_now correlation_of clock workflow_id tenant_id rows) where
  abbrev Valid : System coll time_now correlation_of clock workflow_id tenant_id rows → Type 0
  Valid s = IsValid coll time_now correlation_of clock workflow_id tenant_id rows s

  abbrev Current : Option WorkflowDoc → WorkflowInstance → Type 0
  Current o w = IsCurrent coll time_now correlation_of clock workflow_id tenant_id rows o w

  -- The document as the system has it, moved by a write of a current attempt.
  module _ (st st' : S) (w : WorkflowInstance) (now : Time) (a : Current (rows st) w)
      (m : Applied coll time_now correlation_of clock workflow_id tenant_id rows st
        (decrement w.version)
        (change_of w now)
        st') where
    same_doc : m.doc ≡ a.doc
    same_doc = let both : some m.doc ≡ some a.doc = sym m.before ∙ a.here in cc both

    present : a.read_version ≡ a.version
    present =
        let e : pos a.read_version ≡ pos a.version =
          sym a.read_at
          ∙ sym m.matched
          ∙ ap (λ (z : WorkflowDoc). z.version) same_doc
          ∙ a.versioned in
        cc e

    at_version : m.doc.version ≡ pos a.version
    at_version = ap (λ (z : WorkflowDoc). z.version) same_doc ∙ a.versioned

    applied-Moved : Moved (rows st) (rows st')
    applied-Moved = record {
      old = m.doc;
      next = apply (change_of w now) m.doc;
      was = m.before;
      is = m.after;
      edge =
          subst (λ z. can_transition z w.state ≡ true)
            (sym (a.same_state present) ∙ sym (ap (λ (z : WorkflowDoc). z.state) same_doc)) a.edge;
      counted = refl;
    }

    next_version : (apply (change_of w now) m.doc).version ≡ pos (suc a.version)
    next_version =
        ap increment at_version
        ∙ increment-suc a.version (λ e. m.room (sym m.matched ∙ at_version ∙ e))

    -- The other attempts are behind now.
    applied-IsCurrent : (u : WorkflowInstance) → Current (rows st) u → Current (rows st') u
    applied-IsCurrent u b =
        let both : some b.doc ≡ some a.doc = sym b.here ∙ a.here in
        let one : b.doc ≡ a.doc = cc both in
        let e : pos b.version ≡ pos a.version =
          sym b.versioned ∙ ap (λ (z : WorkflowDoc). z.version) one ∙ a.versioned in
        let versions : b.version ≡ a.version = cc e in
        record {
          doc = apply (change_of w now) m.doc;
          here = m.after;
          version = suc a.version;
          read_version = b.read_version;
          versioned = next_version;
          read_at = b.read_at;
          older = omega (arith, b.older, versions);
          state = b.state;
          edge = b.edge;
          same_state = λ z. absurd (omega (arith, z, b.older, versions));
          same_id = b.same_id;
          same_tenant = b.same_tenant;
        }

  same-IsValid :
      (s : System coll time_now correlation_of clock workflow_id tenant_id rows) (st : S)
      → rows st ≡ rows s.st
      → Valid s
      → Valid (record s { st = st })
  same-IsValid s st e v = record {
    doc = v.doc;
    here = e ∙ v.here;
    version = v.version;
    versioned = v.versioned;
    current = λ i w g. subst (λ o. Current o w) (sym e) (v.current i w g);
  }

  pub Step-IsValid :
      (s t : System coll time_now correlation_of clock workflow_id tenant_id rows)
      → Step coll time_now correlation_of clock workflow_id tenant_id rows s t
      → Valid s
      → Valid t × ((rows t.st ≡ rows s.st) ⊎ Moved (rows s.st) (rows t.st))
  Step-IsValid s t (reads expected_from to revision w h) v = (
    record {
      doc = v.doc;
      here = v.here;
      version = v.version;
      versioned = v.versioned;
      current = λ i u g. elim (get_elem?-append_cases s.attempts w i g) [
        | inl o ↦ v.current i u o
        | inr o ↦ subst (Current (rows s.st)) o.1 (
            read-IsCurrent coll time_now correlation_of clock workflow_id tenant_id rows laws s.st
              v.doc v.version expected_from to revision w v.here v.versioned h)
      ];
    },
    inl refl,
  )
  Step-IsValid s t (writes i w g) v =
      let a = v.current i w g in
      elim (write-cases coll time_now correlation_of clock workflow_id tenant_id rows laws s.st w
        a.same_id a.same_tenant) [
          | inl e ↦ (same-IsValid s _ e v, inl e)
          | inr m ↦ (
            record {
              doc = apply (change_of w (time_now s.st)) m.doc;
              here = m.after;
              version = suc a.version;
              versioned = next_version s.st _ w (time_now s.st) a m;
              current = λ j u k. applied-IsCurrent s.st _ w (time_now s.st) a m u (v.current j u k);
            },
            inr (applied-Moved s.st _ w (time_now s.st) a m),
          )
        ]
  Step-IsValid s t (elsewhere st e) v = (same-IsValid s st e v, inl e)

  pub Reach-IsValid :
      (s t : System coll time_now correlation_of clock workflow_id tenant_id rows)
      → Reach coll time_now correlation_of clock workflow_id tenant_id rows s t
      → Valid s
      → Valid t
  Reach-IsValid s t initially v = v
  Reach-IsValid s t (after {t = u} r h) v = (Step-IsValid u t h (Reach-IsValid s u r v)).0

-- Any number of processes read a workflow instance, check a transition and write it through the repository, in
-- any order, with delays, retries and lost answers, from a stored document with a version that is not
-- negative. Then every step of every such run leaves the stored document as it is, or moves it along one edge of the
-- state machine, from its state at that moment, and to the next version. So of two transitions that were checked
-- against one version at most one takes effect, and no state is left by an edge that was checked against
-- another state.
pub transitions-linear :
    {S : Type 0} (coll : Collection S) (time_now : S → Time) (correlation_of : String → String)
    (clock : Clock S) (workflow_id tenant_id : String) (rows : S → Option WorkflowDoc) (st : S)
    (d : WorkflowDoc) (n : ℕ)
    (t u : System coll time_now correlation_of clock workflow_id tenant_id rows)
    → IsCollection coll time_now correlation_of clock workflow_id tenant_id rows
    → rows st ≡ some d
    → d.version ≡ pos n
    → Reach coll time_now correlation_of clock workflow_id tenant_id rows
        (record { st = st; attempts = [] })
        t
    → Step coll time_now correlation_of clock workflow_id tenant_id rows t u
    → (rows u.st ≡ rows t.st) ⊎ Moved (rows t.st) (rows u.st)
transitions-linear coll time_now correlation_of clock workflow_id tenant_id rows st d n t u laws
      here versioned reach step =
    let start : Valid coll time_now correlation_of clock workflow_id tenant_id rows laws
        (record { st = st; attempts = [] }) =
      record {
        doc = d;
        here = here;
        version = n;
        versioned = versioned;
        current = λ i w g. cc g;
      } in
    let v =
      Reach-IsValid coll time_now correlation_of clock workflow_id tenant_id rows laws _ t reach
        start in
    (Step-IsValid coll time_now correlation_of clock workflow_id tenant_id rows laws t u step v).1
