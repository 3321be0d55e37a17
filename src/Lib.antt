-- ===== src/Lib.antt =====
-- A verification library for FlowRule, an event-driven rule engine written in Go.
--
-- The program. A producer sends an event envelope. A worker takes it from a broker or an API, checks that
-- it owns the event's virtual shard, and processes it in one transaction: the active rule revision of the
-- tenant is evaluated on the event (internal/rules), the execution is recorded, and the effects that the
-- rules ask for are put into an outbox. A publisher claims the outbox and sends the effects, with retries
-- and a quarantine (internal/services/effects). Revisions come from a compiler (internal/rules/compiler.go)
-- that validates a source and fixes the order of its rules.
--
-- The parts.
-- * Domain models internal/domain. Domain/Errors has the sentinels, `fmt.Errorf` trees, `errors.Is` and
--   the error classes of errors.go; Domain/Event, Domain/Rule and Domain/Identity the envelope, the rule
--   records and the stable identities of types.go; Domain/Execution, Domain/Outbox and Domain/Workflow its
--   state machines; Domain/Result the pair `(value, error)`.
-- * Rules models internal/rules. Rules/Path, Rules/Compare, Rules/Predicate, Rules/Template, Rules/Effects
--   and Rules/Evaluator are evaluator.go function by function (`Evaluate` is `evaluate`, `evalPredicate`
--   is `eval_predicate`, and so on); Rules/Validation and Rules/Compiler are compiler.go (`Compile` is
--   `compile`), and Rules/Contract its check of paths and the registry of internal/adapters/memory.
-- * Effects models internal/services/effects/service.go: `PublishBatch` as a pass of the claimed effects
--   over the history of its calls, which the sender and both repositories answer from.
-- * Events models internal/services/events/service.go: `Process` as one function from the database before to
--   the execution and the database after, over any repositories. Events/Outcome is about one call, Events/Again
--   about a second call for the same event.
-- * Delivery has what surrounds them: Delivery/Worker is internal/application/worker_delivery.go, which
--   settles the deliveries of the broker, Delivery/Sharding the reconciliation of worker_sharding.go,
--   Delivery/Scheduler one tick of internal/runtime/scheduler/scheduler.go, and Delivery/Backoff the retry
--   delays of effects, scheduled events and deliveries.
-- * KeyQueue models internal/runtime/keyqueue/queue.go: a step relation (`Step`) on the queues, the slots and the
--   goroutines, one step for what a goroutine does under a lock or in one operation on a channel.
--   KeyQueue/Invariant to KeyQueue/Steps have its invariant, KeyQueue/Order and KeyQueue/Fifo the order of the
--   items, KeyQueue/Guarantees what follows for a client; KeyQueue/HotKeys the long queues.
-- * Batches models internal/services/batches/service.go and internal/domain/batch.go over a history of calls:
--   grouping in Batches.antt, `processGroup` in Batches/Processing, `Tick` and `CreateBatch` in Batches/Requests.
--   Batches/Protocol and Batches/Guarantees are about the order of the calls, Batches/Identity, Batches/Manual and
--   Batches/Selection and Batches/Formed about the batch that a request forms.
-- * Workflows models internal/services/workflow/service.go, and Workflows/Store the repository of workflow instances of
--   internal/adapters/mongo/workflow.go over the operations of the driver. Workflows/Concurrent has the
--   interleavings of transitions on one instance; Workflows/Versions and Workflows/Linear are about them.
-- * Nats models the fetch of internal/adapters/nats/jetstream.go: Nats/Order and Nats/Selection are about the sort of the keys,
--   Nats/Window and Nats/Fairness about the round over the consumers,
--   Nats/Budgets about the limit; Nats/Config is its `normalizeConfig`, with `strings.TrimSpace` as an argument,
--   and Nats/Consumers its `EnsureShardConsumer` over a `Broker`.
-- * Shards models internal/runtime/shard/lease.go: the leases that a worker acquires, renews and rebalances. Shards/Target
--   and Shards/Rebalance are about the target and its bounds, Shards/Shrinking, Shards/Growing and Shards/Progress
--   about how far rebalancing gets.
--
-- The Go standard library is a parameter. `Runtime` (Domain/Values) is a record of the functions of
-- encoding/json, crypto/sha256, fmt, strconv and time that the code calls; a float64 is its bit pattern,
-- a `time.Time` its distance from the zero time. The theorems hold for every such record, unless a
-- hypothesis names what they need of it; the examples instantiate it with small concrete functions.
--
-- Maps are association lists, sorted by key where the source ranges over a map (the rows are then the
-- order that the source's encoder uses). Recursion is structural: a predicate, a JSON value and a list of
-- rules are finite trees, so no fuel is needed; the scan of a template is on the rest of the text.
--
-- Not modelled: `Stats` of the key queue, which reads the lengths of the channels one by one while they change; the loops and timers around the scheduler, the worker and the leases; the SQL and Redis adapters, the rest of the NATS and Mongo adapters, the HTTP surface, the code generator, the configuration
-- and the observability packages, which are input and output around the core; the Rust worker, the SDKs
-- and the web front end, which are other programs.
pub mod Prelude
pub mod Domain
pub mod Rules
pub mod Delivery
pub mod Effects
pub mod Events
pub mod Shards
pub mod KeyQueue
pub mod Batches
pub mod Workflows
pub mod Nats
