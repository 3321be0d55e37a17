-- ===== src/Events/Outcome.antt =====
-- What a successful call of `Process` of internal/services/events/service.go has done.
use kafka_simulate_rule.Domain.Values.{Runtime}
use kafka_simulate_rule.Events.{
  deduplicate_event, list_subscribers, process_in_transaction, too_many, after_dedup,
  persist_execution_and_outbox, process, subscriber_effects, decision_effects, execution_of,
  load_active_revision, found_or_conflict, entry_of, find_execution, after_lookup, after_insert,
  Repositories, RuleEvaluator,
}
use kafka_simulate_rule.Domain.Event.{validate, EventEnvelope}
use kafka_simulate_rule.Prelude.{
  refl, inl, arith, inr, ◌++◌, ◌≤◌, length, false, ◌⊎◌, subst, is_positive, true, none, List, ◌≡◌,
  ℕ, Bool, some, String, Option, ℤ,
}
use kafka_simulate_rule.Domain.Execution.{Execution}
use kafka_simulate_rule.Domain.Rule.{Decision, RuleRevision}
use kafka_simulate_rule.Domain.Result.{Result, wrapped, or_fail, with_context, ok}
use kafka_simulate_rule.Domain.Result.Inversion.{
  wrapped-eq-none, or_fail-eq-ok, if_else-eq-ok, check-eq-ok, with_context-eq-ok, ok-injective,
  >>=-eq-ok,
}

module _ {S : Type 0} (go : Runtime) (evaluator : RuleEvaluator) (repos : Repositories S) where
  -- An execution that the inbox led to.
  pub record Known (e : EventEnvelope) (x : Execution) : Type 0 where
    pub at : S
    pub inbox_text : String
    pub execution_text : String
    pub found : find_execution go repos inbox_text execution_text at e ≡ ok (some x)

  -- The steps of a new event, from the inbox to the commit.
  pub record Fresh (st : S) (e : EventEnvelope) (x : Execution) (after : S) : Type 0 where
    pub received : S
    pub stored : S
    pub queued : S
    pub settled : S
    pub revision : RuleRevision
    pub decision : Decision
    pub subscriptions : List String
    pub payload : String
    pub new_entry :
        repos.inbox_insert st (entry_of go repos e (repos.clock st)) ≡ ok (true, received)
    pub active : load_active_revision go repos received e ≡ ok revision
    pub decided : evaluator revision e ≡ ok decision
    pub recorded : x ≡ execution_of go repos e revision decision (repos.clock received)
    pub saved : repos.executions_save received x ≡ ok stored
    pub listing : S → String → String → Result (List String)
    pub configured : repos.subscribers ≡ some listing
    pub listed : listing stored e.tenant_id e.event_type ≡ ok subscriptions
    pub few : length subscriptions ≤ 100
    pub encoded : go.marshal_event e ≡ some payload
    pub outbox :
        repos.outbox_insert stored (
          decision_effects go repos e x.id (repos.clock received) decision.effects
          ++ subscriber_effects go repos e x.id (repos.clock received) payload subscriptions)
        ≡ ok queued
    pub marked : repos.inbox_mark_committed queued e.tenant_id e.id x.id ≡ ok settled
    pub committed : repos.commit settled ≡ ok after

  -- A valid event under a lease that is held leads to a known execution with the database as it was, or
  -- to a new one.
  pub record Processed (before : S) (e : EventEnvelope) (token : ℤ) (shard : ℕ) (worker : String)
      (x : Execution) (after : S) : Type 0 where
    pub valid : validate e ≡ none
    pub positive : is_positive token ≡ true
    pub begun : S
    pub began : repos.begin before ≡ ok begun
    pub opened : repos.open_repositories begun ≡ none
    pub held : repos.assert_held begun shard worker token ≡ none
    pub outcome :
        (Known e x
          × (after ≡ before)
          × ((st : S) × (deduplicate_event go repos begun e ≡ ok (some x, st))))
        ⊎ Fresh begun e x after

  -- The writes of `persistExecutionAndOutbox`.
  record Persisted (received : S) (e : EventEnvelope) (revision : RuleRevision)
      (decision : Decision) (x : Execution) (settled : S) : Type 0 where
    stored : S
    queued : S
    subscriptions : List String
    payload : String
    recorded : x ≡ execution_of go repos e revision decision (repos.clock received)
    saved : repos.executions_save received x ≡ ok stored
    listing : S → String → String → Result (List String)
    configured : repos.subscribers ≡ some listing
    listed : listing stored e.tenant_id e.event_type ≡ ok subscriptions
    few : length subscriptions ≤ 100
    encoded : go.marshal_event e ≡ some payload
    outbox :
        repos.outbox_insert stored (
          decision_effects go repos e x.id (repos.clock received) decision.effects
          ++ subscriber_effects go repos e x.id (repos.clock received) payload subscriptions)
        ≡ ok queued
    marked : repos.inbox_mark_committed queued e.tenant_id e.id x.id ≡ ok settled

  too_many-le :
      (e : EventEnvelope) (subs : List String) → too_many go repos e subs ≡ none → length subs ≤ 100
  too_many-le e subs h = ground arith

  list_subscribers-Listed :
      (o : Option (S → String → String → Result (List String))) (st : S) (e : EventEnvelope)
      {subs : List String}
      → list_subscribers go repos o st e ≡ ok subs
      → (listing : S → String → String → Result (List String)) × (o ≡ some listing)
        × (listing st e.tenant_id e.event_type ≡ ok subs)
  list_subscribers-Listed none st e h = cc h
  list_subscribers-Listed (some listing) st e h = (listing, refl, with_context-eq-ok _ _ h)

  persist-Persisted :
      (received : S) (e : EventEnvelope) (revision : RuleRevision) (decision : Decision)
      → (p : Execution × S)
      → persist_execution_and_outbox go repos received e revision decision ≡ ok p
      → Persisted received e revision decision p.0 p.1
  unfolding persist_execution_and_outbox
  persist-Persisted received e revision decision p h =
      let now = repos.clock received in
      let x : Execution = execution_of go repos e revision decision now in
      let (st1, s1, h1) = >>=-eq-ok (with_context _ (repos.executions_save received x)) _ h in
      let (subs, s2, h2) = >>=-eq-ok (list_subscribers go repos repos.subscribers st1 e) _ h1 in
      let l = list_subscribers-Listed repos.subscribers st1 e s2 in
      let (few, h3) = check-eq-ok (too_many go repos e subs) _ h2 in
      let (payload, s4, h4) = >>=-eq-ok (or_fail (go.marshal_event e) _) _ h3 in
      let (st2, s5, h5) =
        >>=-eq-ok
          (with_context _ (
            repos.outbox_insert st1 (
              decision_effects go repos e x.id now decision.effects
              ++ subscriber_effects go repos e x.id now payload subs)))
          _ h4 in
      let (st3, s6, h6) =
        >>=-eq-ok (with_context _ (repos.inbox_mark_committed st2 e.tenant_id e.id x.id)) _ h5 in
      subst (λ (q : Execution × S). Persisted received e revision decision q.0 q.1)
        (ok-injective h6)
        (record {
          stored = st1;
          queued = st2;
          subscriptions = subs;
          payload = payload;
          recorded = refl;
          saved = with_context-eq-ok _ _ s1;
          listing = l.0;
          configured = l.1;
          listed = l.2;
          few = too_many-le e subs few;
          encoded = or_fail-eq-ok _ _ s4;
          outbox = with_context-eq-ok _ _ s5;
          marked = with_context-eq-ok _ _ s6;
        })

  DedupOutcome : S → EventEnvelope → Option Execution × S → Type 0
  DedupOutcome st e (some x, st') = Known e x
  DedupOutcome st e (none, st') =
      repos.inbox_insert st (entry_of go repos e (repos.clock st)) ≡ ok (true, st')

  conflict-Known :
      (st st' : S) (e : EventEnvelope) (t1 t2 : String) (o : Option Execution)
      → (r : Option Execution × S) → find_execution go repos t1 t2 st' e ≡ ok o
      → found_or_conflict go repos st' o ≡ ok r
      → DedupOutcome st e r
  unfolding DedupOutcome
  conflict-Known st st' e t1 t2 none r f h = cc h
  conflict-Known st st' e t1 t2 (some x) r f h =
      subst (DedupOutcome st e) (ok-injective h)
        (record { at = st'; inbox_text = t1; execution_text = t2; found = f })

  insert-DedupOutcome :
      (st : S) (e : EventEnvelope) (r : Option Execution × S)
      → (i : Bool × S) → repos.inbox_insert st (entry_of go repos e (repos.clock st)) ≡ ok i
      → after_insert go repos e i ≡ ok r
      → DedupOutcome st e r
  unfolding DedupOutcome after_insert
  insert-DedupOutcome st e r (true, st') n h = subst (DedupOutcome st e) (ok-injective h) n
  insert-DedupOutcome st e r (false, st') n h =
      let (o, f, k) =
        >>=-eq-ok
          (find_execution go repos "get inbox after conflict: " "get execution after conflict: " st'
            e)
          _ h in
      conflict-Known st st' e _ _ o r f k

  lookup-DedupOutcome :
      (st : S) (e : EventEnvelope) (o : Option Execution) (r : Option Execution × S)
      → find_execution go repos "check inbox: " "get existing execution: " st e ≡ ok o
      → after_lookup go repos e st o ≡ ok r
      → DedupOutcome st e r
  unfolding DedupOutcome after_lookup
  lookup-DedupOutcome st e (some x) r f h = conflict-Known st st e _ _ (some x) r f h
  lookup-DedupOutcome st e none r f h =
      let (i, n, k) =
        >>=-eq-ok (with_context _ (repos.inbox_insert st (entry_of go repos e (repos.clock st)))) _
          h in
      insert-DedupOutcome st e r i (with_context-eq-ok _ _ n) k

  Outcome : S → S → EventEnvelope → Execution → S → Type 0
  Outcome before st e x after =
      (Known e x
        × (after ≡ before)
        × ((st' : S) × (deduplicate_event go repos st e ≡ ok (some x, st'))))
      ⊎ Fresh st e x after

  new-Outcome :
      (before st received : S) (e : EventEnvelope) (q : Execution × S)
      → repos.inbox_insert st (entry_of go repos e (repos.clock st)) ≡ ok (true, received)
      → after_dedup go evaluator repos before e (none, received) ≡ ok q
      → Outcome before st e q.0 q.1
  unfolding after_dedup Outcome
  new-Outcome before st received e q n h =
      let (revision, s1, h1) = >>=-eq-ok (load_active_revision go repos received e) _ h in
      let (decision, s2, h2) = >>=-eq-ok (with_context _ (evaluator revision e)) _ h1 in
      let (p, s3, h3) =
        >>=-eq-ok (persist_execution_and_outbox go repos received e revision decision) _ h2 in
      let (after, s4, h4) = >>=-eq-ok (with_context _ (repos.commit p.1)) _ h3 in
      let w : Persisted received e revision decision p.0 p.1 =
        persist-Persisted received e revision decision p s3 in
      subst (λ (r : Execution × S). Outcome before st e r.0 r.1) (ok-injective h4)
        (inr (record {
          received = received;
          stored = w.stored;
          queued = w.queued;
          settled = p.1;
          revision = revision;
          decision = decision;
          subscriptions = w.subscriptions;
          payload = w.payload;
          new_entry = n;
          active = s1;
          decided = with_context-eq-ok _ _ s2;
          recorded = w.recorded;
          saved = w.saved;
          listing = w.listing;
          configured = w.configured;
          listed = w.listed;
          few = w.few;
          encoded = w.encoded;
          outbox = w.outbox;
          marked = w.marked;
          committed = with_context-eq-ok _ _ s4;
        }))

  dedup-Outcome :
      (before st : S) (e : EventEnvelope) (r : Option Execution × S) (q : Execution × S)
      → deduplicate_event go repos st e ≡ ok r
      → DedupOutcome st e r
      → after_dedup go evaluator repos before e r ≡ ok q
      → Outcome before st e q.0 q.1
  unfolding DedupOutcome after_dedup Outcome
  dedup-Outcome before st e (some x, st') q a d h =
      subst (λ (r : Execution × S). Outcome before st e r.0 r.1) (ok-injective h)
        (inl (d, refl, (st', a)))
  dedup-Outcome before st e (none, st') q a d h = new-Outcome before st st' e q d h

  -- `Process` succeeds only on a valid envelope, with a positive fencing token, while the lease of the shard
  -- is held under this token. Then either the inbox leads to an execution, which is the result, and the
  -- database stays as it was; or the event is new: its entry is inserted, the active revision decides, and the
  -- execution under its stable identity, one pending effect for each effect of the decision and one
  -- for each of the at most 100 subscribers that the repository lists for the tenant and the type of the
  -- event, and the mark in the inbox are committed together.
  pub process-Processed :
      (before : S) (e : EventEnvelope) (token : ℤ) (shard : ℕ) (worker : String) (x : Execution)
      (after : S)
      → process go evaluator repos before e token shard worker ≡ ok (x, after)
      → Processed before e token shard worker x after
  unfolding process process_in_transaction deduplicate_event Outcome
  process-Processed before e token shard worker x after h =
      let (valid, h1) = check-eq-ok (validate e) _ h in
      let (positive, h2) = if_else-eq-ok (is_positive token) _ _ h1 in
      let (st, s3, h3) = >>=-eq-ok (with_context _ (repos.begin before)) _ h2 in
      let (opened, h4) = check-eq-ok (wrapped _ (repos.open_repositories st)) _ h3 in
      let (held, h5) = check-eq-ok (wrapped _ (repos.assert_held st shard worker token)) _ h4 in
      let (r, s6, h6) = >>=-eq-ok (deduplicate_event go repos st e) _ h5 in
      let (o, s7, h7) =
        >>=-eq-ok (find_execution go repos "check inbox: " "get existing execution: " st e) _ s6 in
      record {
        valid = valid;
        positive = positive;
        begun = st;
        began = with_context-eq-ok _ _ s3;
        opened = wrapped-eq-none _ _ opened;
        held = wrapped-eq-none _ _ held;
        outcome = dedup-Outcome before st e r (x, after) s6 (lookup-DedupOutcome st e o r s7 h7) h6;
      }
