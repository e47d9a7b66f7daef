-- ===== src/Lib.antt =====
-- SentryGate: an ingress gate that decides, by a policy, which infrastructure commands of AI agents
-- may run, and a worker that executes each allowed command at most once.
--
-- The parts and how they interact. An agent sends a proposal to the ingress handler, which evaluates
-- it against the current policy snapshot and appends a decision record to the decision store. For an
-- ALLOW it starts a workflow. The workflow verifies that a recorded ingress decision backs it, claims
-- the decision, evaluates the policy again, and schedules the dispatch activity, which moves the
-- claim from CLAIMED to EXECUTING (the execution fence) and calls the infrastructure adapter only
-- then. An unknown outcome is reconciled with the same idempotency key.
--
-- Which file models which part:
--   Prelude          library names, Boolean tests, association lists, lists over the native
--                    numbers, integers, character patterns
--   Contracts        shared/contracts: errors, proposals, verdicts, reason codes, decision records,
--                    claims, dispatch outcomes
--   Policy           internal/policy/schema.go: the snapshot with its accessors (Policy), the YAML
--                    document and its patterns (Document), `build` (Build), Parse and the reloads of
--                    internal/policy/loader.go (Loader)
--   Decision         internal/decision: RequestHash (Hash), Evaluate and Revalidate (Evaluate),
--                    VerifyIngress, CheckIngress and IngressReason (Ingress), ClaimSources,
--                    ExecutionKey and the ClaimStore interface (Claim) with its laws
--                    (Claim/Contract) and what its comments promise of the answers
--                    (Claim/Promises), MemoryStore (Store), and the tests of
--                    internal/decision/decisiontest as programs over any store (Suite, Suite/Cases)
--   Workflows        workflows: the Adapter interface (Adapter), DispatchConfig, ReconcileDispatch,
--                    RevertStateCompensation and the decision activities (Activities), the
--                    simulated adapter (Simulated), the audit table and its rows (Audit), and
--                    SentryGateSagaWorkflow: its requests and replies (Saga), the phases from the
--                    dispatch on (Saga/Phases) and before it (Saga/Phases/Before)
--   Sqlite           internal/audit: the tables with the SQL statements on them and the driver
--                    (Database), the columns (Rows), the methods of Store (Claims, Decisions, Trail)
--   Auth             internal/auth/agentkeys.go: the keyring of agent API keys (Auth), the agent ID in
--                    a request's context (Context)
--   Proxy            proxy/proxy.go: pooled envelopes and EvaluateThrottled (Proxy), its slots under
--                    concurrent requests (Slots); proxy/clients.go: the F5 and Zscaler simulators
--                    (Clients/F5, Clients/Zscaler)
--   Server           cmd/sentrygate/handler.go: the body and the parameters of the handlers (Request),
--                    intercept (Intercept), the handlers that read (Queries), the routes (Routes)
--   Config           internal/config/config.go: the settings read from the environment
--   Tests            every theorem with hypotheses or arguments at a concrete input
-- The child modules named Verdicts, Revalidation, Binding, Content, Fields, Key, Keys, Resolves,
-- Records, Store/Claims, Validity, Reloads, Fence, Once, Consistent, Effects, Trail, Ledger,
-- Conclusion, After, Guarded, Start, Runs, Ending, Returns, States, Taking, Moving, Working, Answers,
-- Advancing, Laws, Promises, Columns, Stored, Calls, Revisions, Winner, Contract, Backed, Stores,
-- Accepts, Loop and Started hold the lemmas and theorems.
--
-- Names are the source's in snake case; an operation of an interface or a mutable struct takes the
-- state and returns the new state with the result. A nil pointer or interface is `none`. A Go error
-- is a value of `Error`, with the sentinel that it wraps; an index out of range is the error
-- `index_panic`. A mutex makes a method one step. A context is the Boolean "has ended at this call",
-- and where one activity uses its context three times, each use has its own Boolean. A time is the
-- number of nanoseconds since the zero time.
--
-- The workflow is a program over what it asks of Temporal (activities, timers, the clock, the stored
-- random token), which goes on with any reply. A run is this program in a world that answers each
-- request from a state. Retries and timeouts of an activity are among the replies that a world may
-- give.
--
-- Parameters. `sha256_hex` is SHA-256 with hexadecimal output, `space` is unicode.IsSpace, both
-- from Go's library, and `decode` is the YAML decoder. The claim store of the activities is any
-- `ClaimStore` with `ClaimStoreLaws`, which state what the fence needs, lost answers included: a write
-- may commit although an error is reported. `ClaimStorePromises` adds when each operation succeeds and
-- with which error it is refused, where the store can serve the call: for MemoryStore, in a live
-- context; for the SQLite store, while the driver answers. The adapter is any `Adapter`.
--
-- An SQL statement of the source has a meaning on tables, which are association lists by primary key
-- (Sqlite/Database). The engine behind database/sql is any `Driver` with `DriverLaws`: a statement
-- takes effect as a whole or not at all, also when an error is reported, its answer of n rows means
-- that it took effect and changed n, and a query of one row that succeeds read the table. Its errors
-- wrap no sentinel of the program. `Codec` is Go's time format and JSON of reason codes: what JSON
-- writes is read back, and a time of a year up to 9999. A row's times that cannot be read count as
-- zero where the laws of the claim store speak of the claim; `GetClaim` reports them.
--
-- The handler's parameters are the JSON decoder over the limited body (`Json`), the decision store
-- (`DecisionStore` with `DecisionStoreLaws`) and Temporal's client (`WorkflowStarter`), of which
-- `StarterLaws` say that with WorkflowExecutionErrorWhenAlreadyStarted a start succeeds only if no
-- workflow with the ID is running. A `select` takes the branch that the call is given. Goroutines that race for evaluation
-- slots are the steps of a relation.
--
-- Loops are recursion over their list, but for the reconciliation loop, which is on fuel. Its fuel is
-- 8641 rounds: each waits 10 seconds at least, and the loop ends when 24 hours have passed.
--
-- Not modelled: YAML and JSON decoding, opening and closing the database, Temporal's transport,
-- net/http's matching of paths, telemetry, logging, the process mains, and the demo client, which are
-- I/O or code of third parties around the parts above.
pub mod Prelude
pub mod Contracts
pub mod Policy
pub mod Decision
pub mod Workflows
pub mod Sqlite
pub mod Auth
pub mod Proxy
pub mod Server
pub mod Config
pub mod Tests
