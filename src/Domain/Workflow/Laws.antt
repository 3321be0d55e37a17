-- ===== src/Domain/Workflow/Laws.antt =====
-- Runs of the workflow instances of internal/domain/types.go.
-- The state machine as a relation.
use kafka_simulate_rule.Prelude.{
  increment, ap, ◌∙◌, ◌<◌, ◌+◌, pos, refl, [], arith, eq_iff, sym, inr, inl, ◌↔◌, subst, none, ◌∷◌,
  suc, some, Bool, str_eq, All, true, false, ℕ, Bool-cases, List, ◌≡◌, String, Option,
}
use kafka_simulate_rule.Domain.Workflow.{
  workflow_status_paused, workflow_status_completed, workflow_status_failed,
  workflow_status_running, contained, is_final, workflow_status_pending, WorkflowInstance, contains,
  valid_transitions, transition, can_transition,
}
use kafka_simulate_rule.Domain.Event.{Time}
use kafka_simulate_rule.Domain.Result.{ok}
use kafka_simulate_rule.Domain.Result.Inversion.{if-eq-ok}

pub data Edge : String → String → Type 0 where
  begin : Edge workflow_status_pending workflow_status_running
  abort : Edge workflow_status_pending workflow_status_failed
  finish : Edge workflow_status_running workflow_status_completed
  break : Edge workflow_status_running workflow_status_failed
  pause : Edge workflow_status_running workflow_status_paused
  resume : Edge workflow_status_paused workflow_status_running
  abandon : Edge workflow_status_paused workflow_status_failed

All-contains :
    (P : String → Type 0) (next : List String) (to : String)
    → All P next
    → contains next to ≡ true
    → P to
unfolding contains
All-contains P [] to a h = cc
All-contains P (s ∷ next) to a h = elim (Bool-cases (str_eq s to)) [
  | inl e ↦ subst P ((eq_iff s to).0 e) a.0
  | inr e ↦ All-contains P next to a.1 (ground arith)
]

abbrev AllEdges : String → Option (List String) → Type 0
AllEdges from none = Unit
AllEdges from (some next) = All (Edge from) next

edges_of :
    (from s : String) (next : List String)
    → All (Edge s) next
    → str_eq from s ≡ true
    → All (Edge from) next
edges_of from s next a h = subst (λ f. All (Edge f) next) (sym ((eq_iff from s).0 h)) a

edges : (from : String) → AllEdges from (valid_transitions from)
unfolding valid_transitions
edges from = elim (Bool-cases (str_eq from workflow_status_pending)) [
  | inl e ↦ rw e (
      edges_of from workflow_status_pending (workflow_status_running ∷ workflow_status_failed ∷ [])
        (begin, (abort, tt)) e)
  | inr e ↦ rw e (elim (Bool-cases (str_eq from workflow_status_running)) [
    | inl f ↦ rw f (
        edges_of from workflow_status_running
          (workflow_status_completed ∷ workflow_status_failed ∷ workflow_status_paused ∷ [])
          (finish, (break, (pause, tt))) f)
    | inr f ↦ rw f (elim (Bool-cases (str_eq from workflow_status_paused)) [
      | inl g ↦ rw g (
          edges_of from workflow_status_paused
            (workflow_status_running ∷ workflow_status_failed ∷ []) (resume, (abandon, tt)) g)
      | inr g ↦ rw g (elim (Bool-cases (str_eq from workflow_status_completed)) [
        | inl h ↦ rw h tt
        | inr h ↦ rw h (elim (Bool-cases (str_eq from workflow_status_failed)) [
          | inl i ↦ rw i tt
          | inr i ↦ rw i tt
        ])
      ])
    ])
  ])
]

edge_in :
    (from to : String) (o : Option (List String))
    → AllEdges from o
    → contained o to ≡ true
    → Edge from to
unfolding contained
edge_in from to none a h = let apart : false ≡ true = h in absurd (ground arith)
edge_in from to (some next) a h = All-contains (Edge from) next to a h

can_transition-edge : (from to : String) → Edge from to → can_transition from to ≡ true
unfolding can_transition valid_transitions contains contained
can_transition-edge from to begin = refl
can_transition-edge from to abort = refl
can_transition-edge from to finish = refl
can_transition-edge from to break = refl
can_transition-edge from to pause = refl
can_transition-edge from to resume = refl
can_transition-edge from to abandon = refl

-- `CanTransition` says yes to exactly the seven edges of the state machine.
pub can_transition-Edge : (from to : String) → (can_transition from to ≡ true) ↔ Edge from to
unfolding can_transition
can_transition-Edge from to =
    (λ h. edge_in from to (valid_transitions from) (edges from) h, can_transition-edge from to)

-- A run of transitions that all succeed, with their number.
pub data Run : WorkflowInstance → ℕ → WorkflowInstance → Type 0 where
  start : {w : WorkflowInstance} → Run w 0 w
  next :
      {w v u : WorkflowInstance} {n : ℕ} (to : String) (now : Time)
      → Run w n v
      → transition v to now ≡ ok u
      → Run w (suc n) u

abbrev pub is_set : Option Time → Bool
is_set none = false
is_set (some t) = true

-- A date of completion exactly in a final state.
abbrev pub IsDated : WorkflowInstance → Type 0
IsDated w = is_set w.completed_at ≡ is_final w.state

Edge-final : (from to : String) → Edge from to → is_final from ≡ false
Edge-final from to begin = refl
Edge-final from to abort = refl
Edge-final from to finish = refl
Edge-final from to break = refl
Edge-final from to pause = refl
Edge-final from to resume = refl
Edge-final from to abandon = refl

record Step (v u : WorkflowInstance) : Type 0 where
  allowed : can_transition v.state u.state ≡ true
  counted : u.version ≡ increment v.version
  dated : IsDated v → is_final v.state ≡ false → IsDated u

step : (v u : WorkflowInstance) (to : String) (now : Time) → transition v to now ≡ ok u → Step v u
unfolding transition
step v u to now h =
    let (allowed, same) = if-eq-ok (can_transition v.state to) _ h in
    subst (Step v) same (record { allowed = allowed; counted = refl; dated = λ d f. ground arith })

Run-IsDated : {w u : WorkflowInstance} {n : ℕ} → IsDated w → Run w n u → IsDated u
Run-IsDated d start = d
Run-IsDated d (next {w = w} {v = v} {u = u} to now r h) =
    let s = step v u to now h in
    s.dated (Run-IsDated d r)
      (Edge-final v.state u.state ((can_transition-Edge v.state u.state).0 s.allowed))

Run-version :
    {w u : WorkflowInstance} {n k : ℕ}
    → w.version ≡ pos k
    → k + n < 9223372036854775808
    → Run w n u
    → u.version ≡ pos (k + n)
unfolding increment
Run-version h l start = h ∙ ap pos (omega arith)
Run-version {k = k} h l (next {w = w} {v = v} {u = u} {n = n} to now r p) =
    let before : v.version ≡ pos (k + n) = Run-version h (omega arith) r in
    (step v u to now p).counted ∙ ground arith

-- In a run from a fresh instance (in state `pending`, of version `k` and with no date) the version counts
-- the transitions while it fits an int64, and the date of completion is there exactly when the state
-- is `completed` or `failed`.
pub Run-version-final :
    {w u : WorkflowInstance} {n k : ℕ}
    → w.state ≡ workflow_status_pending
    → w.completed_at ≡ none
    → w.version ≡ pos k
    → k + n < 9223372036854775808
    → Run w n u
    → (u.version ≡ pos (k + n)) × (is_set u.completed_at ≡ is_final u.state)
Run-version-final {w = w} {u = u} fresh undated h l r =
    (Run-version h l r, Run-IsDated (rw (fresh, undated) refl) r)
