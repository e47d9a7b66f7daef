-- ===== src/Workflows/Saga.antt =====
-- workflows/saga.go: `SentryGateSagaWorkflow` as a program over what it asks of Temporal: activities,
-- timers, the clock and the stored random token. Each request has a reply, and the program goes on
-- with any reply. A failed activity's error is what the workflow can see of it: its text, and the
-- type of the application error in its chain. Log lines and activity options are not modelled.
pub mod Phases
pub mod Ledger
pub mod After
pub mod Conclusion
pub mod Ending
pub mod Guarded
pub mod Start
pub mod Runs
pub mod Returns
use sentry_gate_ai.Prelude.{String, ℕ, Bool, true, false, List, [], ◌∷◌, Option, none, some}
use sentry_gate_ai.Contracts.{
  Result, Time, ExecutionRequest, IngressVerification, ClaimRequest, ClaimResult, ClaimTransition,
  Decision, DecisionRecord, AuditRecord, FencedDispatch, DispatchRequest, DispatchOutcome,
}

pub record TaskError : Type 0 where
  pub message : String
  pub type : Option String

-- What the workflow returns: a non-retryable application error with its message, type, cause and
-- details, or an error that wraps `ErrAuditPersistFailed`.
pub data WorkflowError : Type 0 where
  application : String → String → Option TaskError → List String → WorkflowError
  audit_failed : String → WorkflowError

pub data Command : Type 0 where
  -- `workflow.Now` and `workflow.Sleep`, in nanoseconds
  now : Command
  sleep : ℕ → Command
  -- the side effect `rand.Text()`
  random_text : Command
  -- the activities
  verify_ingress : ExecutionRequest → Command
  claim : ClaimRequest → Command
  evaluate : ExecutionRequest → Command
  record_decision : DecisionRecord → Command
  audit : AuditRecord → Command
  advance : ClaimTransition → Command
  dispatch : FencedDispatch → Command
  reconcile compensate : DispatchRequest → Command

abbrev pub Reply : Command → Type 0
Reply Command.now = Time
Reply (Command.sleep _) = Option TaskError
Reply Command.random_text = Result TaskError String
Reply (Command.verify_ingress _) = Result TaskError IngressVerification
Reply (Command.claim _) = Result TaskError ClaimResult
Reply (Command.evaluate _) = Result TaskError Decision
Reply (Command.record_decision _) = Option TaskError
Reply (Command.audit _) = Option TaskError
Reply (Command.advance _) = Option TaskError
Reply (Command.dispatch _) = Result TaskError DispatchOutcome
Reply (Command.reconcile _) = Result TaskError DispatchOutcome
Reply (Command.compensate _) = Option TaskError

-- `out_of_fuel` is reached only if the fuel of the reconciliation loop does not suffice.
pub data Workflow : Type 0 where
  finish : Option WorkflowError → Workflow
  ask : (c : Command) → (Reply c → Workflow) → Workflow
  out_of_fuel : Workflow

pub record Event : Type 0 where
  pub command : Command
  pub reply : Reply command

-- Temporal and the activities, over a state `S`.
abbrev pub World : Type 0 → Type 0
World S = S → (c : Command) → S × Reply c

module _ {S : Type 0} where
  -- What a run asks and is told, in order.
  unfoldable pub events : World S → S → Workflow → List Event
  events world s (Workflow.finish _) = []
  events world s Workflow.out_of_fuel = []
  events world s (Workflow.ask c next) =
      let answer = world s c in
      record { command = c; reply = answer.1 } ∷ events world answer.0 (next answer.1)

  -- What a run returns; `none` if it runs out of fuel.
  unfoldable pub result : World S → S → Workflow → Option (Option WorkflowError)
  result world s (Workflow.finish e) = some e
  result world s Workflow.out_of_fuel = none
  result world s (Workflow.ask c next) =
      let answer = world s c in result world answer.0 (next answer.1)
