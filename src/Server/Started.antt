-- ===== src/Server/Started.antt =====
-- The ingress handler and the worker over one SQLite database: what the handler starts, the worker's
-- ingress check accepts.
use sentry_gate_ai.Prelude.{
  String, ◌≡◌, ◌≢◌, ◌<◌, ◌⊎◌, ℕ, Bool, List, Option, none, some, arith, inl, inr,
}
use sentry_gate_ai.Contracts.{
  Error, Result-cases, ok, err, DecisionRecord, ExecutionRequest, year_10000,
}
use sentry_gate_ai.Policy.{Snapshot}
use sentry_gate_ai.Decision.Ingress.{check_ingress}
use sentry_gate_ai.Decision.Ingress.Binding.{check_ingress_iff, verify_ingress_iff}
use sentry_gate_ai.Sqlite.Database.{Tables, Driver, DriverLaws}
use sentry_gate_ai.Sqlite.Rows.{Codec}
use sentry_gate_ai.Sqlite.Decisions.{get_decision}
use sentry_gate_ai.Sqlite.Decisions.Stored.{sqlite_recorded}
use sentry_gate_ai.Server.Request.{Json, WorkflowStarter, StartOptions, Response}
use sentry_gate_ai.Server.Intercept.{InterceptCall, intercept}
use sentry_gate_ai.Server.Backed.{intercept-Starts}
use sentry_gate_ai.Server.Stores.{sqlite_decision_store, sqlite_decision_store-laws}

module _ (sha256_hex : List ℕ → String) {B D W : Type 0} (json : Json B) (db : Driver D)
    (codec : Codec) (tables : D → Tables) (laws : DriverLaws D db tables) (no_rows : Error)
    (starter : WorkflowStarter W) (policy : Option Snapshot) (task_queue : String) where
  -- A recorded decision is what `GetDecision` returns, if its query succeeds.
  get-recorded :
      (d : D) (later : Bool) (id : String) (r : DecisionRecord)
      → sqlite_recorded db codec tables laws d id ≡ some r
      → (get_decision db codec d later id ≡ ok r)
        ⊎ ((e : Error) × (db.query_decision d later id ≡ err e))
  unfolding sqlite_recorded get_decision
  get-recorded d later id r h = elim (Result-cases (db.query_decision d later id)) [
    | inr (e, q) ↦ inr (e, q)
    | inl (found, q) ↦
        let read = laws.decision_read d later id found q in inl (ground (arith, q, read))
  ]

  abbrev answer : InterceptCall B → D → W → (D × W) × Response
  answer =
      intercept sha256_hex json (sqlite_decision_store db codec no_rows) starter policy task_queue

  -- The worker's check passes for a request of the workflow, unless reading the decision fails.
  abbrev Checks : D → String → ExecutionRequest → Type 0
  Checks d workflow_id req =
      (later : Bool)
      → (check_ingress sha256_hex (get_decision db codec d later req.ingress_decision_id) req
            workflow_id
          ≡ none)
        ⊎ ((e : Error) × (db.query_decision d later req.ingress_decision_id ≡ err e))

  -- Over a driver that keeps its laws, with a new decision ID and a clock before the year 10000,
  -- intercept leaves the workflow service alone or asks it for one workflow, and CheckIngress over the
  -- same database passes for the request and the ID that it is started with, unless its query fails.
  pub started_passes_check :
      (call : InterceptCall B) (d : D) (w : W)
      → call.decision_id ≢ ""
      → call.now < year_10000
      → sqlite_recorded db codec tables laws d call.decision_id ≡ none
      → ((answer call d w).0.1 ≡ w)
        ⊎ ((req : ExecutionRequest) × (options : StartOptions) × ((answer call d w).0.1
              ≡ (starter.execute_workflow w call.ended_start options req).0)
            × Checks (answer call d w).0.0 options.id req)
  started_passes_check call d w named early fresh =
      elim (intercept-Starts sha256_hex json (sqlite_decision_store db codec no_rows) starter policy
        task_queue (sqlite_recorded db codec tables laws) (λ d. Unit {0})
        (sqlite_decision_store-laws db codec tables laws no_rows) call d w tt named early fresh) [
          | inl kept ↦ inl kept
          | inr s ↦ inr (
            s.request,
            s.options,
            s.asked,
            λ later.
                elim (get-recorded (answer call d w).0.0 later s.request.ingress_decision_id
                  s.backing s.found) [
                    | inr failed ↦ inr failed
                    | inl read ↦ inl (
                        (check_ingress_iff sha256_hex _ s.request s.options.id).1 (
                          s.backing,
                          read,
                          (verify_ingress_iff sha256_hex s.backing s.request s.options.id).0
                              s.verified,
                        ))
                  ],
          )
        ]
