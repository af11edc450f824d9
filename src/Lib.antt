-- ===== src/Lib.antt =====
-- The plan control plane of GoAgent, its ledger and its governed actions, and what makes them correct.
--
-- A client hands in a run plan, a graph of nodes that are runs of agent backends. A validator turns
-- the specification into an executable plan; a workflow then repeats one step: the scheduler
-- (internal/usecase/agentosplan/scheduler.go) reads the status of the plan and says which nodes run
-- and which are skipped, and every change of the status is an event that the reducer
-- (internal/usecase/agentosplan/state.go) applies. The policy (policy.go) stops plans that run too
-- long, and an outbox (commands.go) delivers starts, signals and control commands. A store keeps the
-- plans, their events, the outbox and the audit trail (plan_store_memory.go); its calls are retried, so
-- that each carries an idempotency key. Beside the plans, a ledger keeps the audit facts of processes as
-- an append-only list (internal/usecase/agentosledger), and governed actions pass a dry run and an
-- approval before they are executed (internal/usecase/agentosaction).
--
-- Which file models what:
--   Prelude, Prelude/*: Booleans, lists, Go maps as association lists, the sort package, signed words
--     with their wrap-around, texts, decimals, structs as keys, errors as values.
--   Control/*: the contracts of agentos/control/plan.go, agentos/control/types.go and
--     agentos/core/types.go. A string with named constants is a data type with a case for any other
--     string. A time is the number of nanoseconds since Go's zero time.
--   Plan/Reducer/Events, State, Gate, Nodes, Apply, Restore: state.go. `State.Apply` is `apply`, which
--     returns the new state and the error; a method that changes `s.Status` or `s.nodes` returns the
--     new value. What the pointer to the approval status shares is not read by two owners at a time,
--     so it is a value. `Apply` takes `now`, what the clock returns for an event without a time.
--   Plan/Reducer/Cases, NodeMap, Frame, Projection, Approval, Lifecycle, Errors, RestoreLoops,
--     RoundTrip, Reach: its properties; `Reach` is the relation of the states that a plan reaches.
--   Plan/Scheduler/Trigger, Dependencies, Decide: scheduler.go. The CEL compiler is a parameter, an
--     optional function that compiles a text to a function on variables, either of which may fail.
--     Nothing is assumed of it.
--   Plan/Scheduler/Join, Selection, Exclusive, Progress: its properties.
--   Plan/Commands/Status, Lifecycle: commands.go and the statuses of contract.go.
--   Plan/Policy/Guards, Monotone: policy.go and `normalizePolicy` of validator.go.
--   Plan/Validator/Order, Contracts, Nodes, Edges, Paths, Validate: validator.go, with
--     mapping_contract.go and what it calls of artifact_contract.go and scope.go. The capability and
--     schema catalogs are parameters, as is the JSON schema library; nothing is assumed of them. The
--     loop of `topoSort` runs on as many turns as the plan has nodes, and the search of
--     `hasDependencyPath` on one more than it has edges; each id is queued at most once. These turns of
--     `topoSort` are enough where every edge leads to a node, which its callers have checked before.
--   Plan/Validator/Counts, Release, Topological, Sorted, Fuel, Search, Reachable, Graph, Executable:
--     its properties.
--   Plan/Delta: delta.go.
--   Plan/Approval: approval.go, with the reason of a signal of signals.go. The idempotency hash, a
--     SHA-256 sum of a JSON text, is a parameter of which nothing is assumed.
--   Plan/Store/Records, Scope, Codec, Idempotency, Envelopes: the records and keys of the store, the
--     tenant checks of scope.go, and idempotency.go. `json.Marshal` and `sha256.Sum256` are the
--     parameter `Codec`, functions that may fail; where a theorem needs that the JSON document of a
--     plan shows its account and its project it says so (`TellsTenants`).
--   Plan/Store/State, Memory, Events, Audits, Outbox, Listings: plan_store_memory.go, audit.go and
--     the checkpoint test of metrics_exporter.go. A call is a function from the store to a result and
--     the store that it leaves behind, after an error too; `time.Now` is an argument. The lock of the
--     store makes each call one step. Deep copies are values.
--   Plan/Store/Writes, Calls, Operations, Outgoing, Run: the calls as sequences of guarded writes, and
--     `run`, a sequence of calls on a store.
--   Plan/Store/Requests: what a transition asks for, apart from what is stored.
--   Plan/Store/AppendOnly, Lockstep, Timeline, Pages, Identity, Ownership, Replay, Transitions,
--     RoundTrip, Creation: the properties of the store.
--   Plan/Recovery: a workflow that goes on from the snapshot it saved.
--   Ledger/Records, Validate, Memory, Runtime: agentos/process/ledger.go and
--     internal/usecase/agentosledger. `Store` is the interface of contract.go, on the states that an
--     implementation has; `memory_store` is the in-process one. `json.Marshal` of an entry is a
--     parameter of which nothing is assumed.
--   Ledger/Log, Indexed, Refinement, Replay, Examples: the plain log that specifies the ledger, and its
--     properties. `plain_log` is another `Store`, so that the runtime and `run` serve both.
--   Action/Records, Validate, State, Listing, Memory, Lifecycle, Runtime: agentos/process/action.go and
--     internal/usecase/agentosaction. `next` is what a use case makes of the request and the status it
--     reads, `run_call` the whole use case.
--   Action/System: the two calls on the store that a use case makes, as steps that other steps may
--     separate. Gates, Reading, Safety, Replay, Examples: its properties.
--   Plan/Examples/*: a small plan and the theorems at it.
--
-- Bounds. int32 and int64 fields that the code adds to wrap (`add_int`); counters of list elements are
-- natural numbers. Where Go leaves the order of a map open and sorts afterwards, the model sorts what
-- stands in the order of insertion. sort.Slice is not stable in Go; the lists that it sorts here are
-- ordered by ids, and equal ids are left as they stood.
--
-- Not modelled: the PostgreSQL stores, the Temporal workflows that call the coordinator, the HTTP
-- controllers, repositories and SDKs, which are input and output around this core; contexts and their
-- cancellation; the numbers that error texts print.
pub mod Action
pub mod Control
pub mod Ledger
pub mod Plan
pub mod Prelude
