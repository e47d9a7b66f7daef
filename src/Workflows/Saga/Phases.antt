-- ===== src/Workflows/Saga/Phases.antt =====
-- workflows/saga.go: the workflow's phases, the last one first. Each takes what the earlier phases
-- found out; `seq` is the number of audit rows written so far.
pub mod Before
use sentry_gate_ai.Prelude.{
  String, ℕ, zero, suc, ◌+◌, ◌-◌, ◌*◌, Bool, true, false, not, List, [], ◌∷◌, Option, none, some,
  ◌==◌, ◌||◌, ◌+++◌, ltb, is_none, if◌then◌else◌,
}
use sentry_gate_ai.Contracts.{
  Result, ok, err, Time, AgentProposal, ExecutionRequest, ClaimState, ReasonCode, reason_text,
  Decision, DecisionRecord, AuditPhase, AuditVerdict, FencedDispatch, DispatchRequest,
  DispatchOutcome, OutcomeStatus, outcome_status_text, unknown_outcome, checked, quote,
}
use sentry_gate_ai.Decision.Claim.{execution_key}
use sentry_gate_ai.Workflows.Activities.{
  claim_rejected_type, fence_rejected_type, fence_unknown_type,
}
use sentry_gate_ai.Workflows.Audit.{new_audit_record}
use sentry_gate_ai.Workflows.Saga.{TaskError, WorkflowError, Command, Workflow}

-- The workflow's input and its execution info.
pub record Run : Type 0 where
  pub workflow_id : String
  pub run_id : String
  pub req : ExecutionRequest

abbrev pub dispatch_failed_type : String
dispatch_failed_type = "DISPATCH_FAILED"

abbrev pub outcome_unknown_type : String
outcome_unknown_type = "DISPATCH_OUTCOME_UNKNOWN"

-- `record`
unfoldable pub record_phase :
    Run → ℕ → AuditPhase → AuditVerdict → String → (Option TaskError → Workflow) → Workflow
unfolding new_audit_record
record_phase run seq phase verdict detail next = Workflow.ask Command.now (λ at.
    Workflow.ask
      (Command.audit
        (new_audit_record run.workflow_id run.run_id phase verdict run.req.proposal detail at seq))
      next)

-- `transition`
unfoldable pub transition : Run → String → ClaimState → (Option TaskError → Workflow) → Workflow
transition run token to next =
    Workflow.ask
      (Command.advance
        (record { decision_id = run.req.ingress_decision_id; token = token; to = to }))
      next

-- `dreq`
abbrev pub dispatch_request : Run → DispatchRequest
dispatch_request run = record {
  idempotency_key = execution_key run.req.ingress_decision_id;
  proposal = run.req.proposal;
}

-- `fenced`
abbrev pub fenced_request : Run → String → FencedDispatch
fenced_request run token = record {
  decision_id = run.req.ingress_decision_id;
  token = token;
  dispatch = dispatch_request run;
}

abbrev pub bool_text : Bool → String
bool_text true = "true"
bool_text false = "false"

-- `outcomeDetail`
unfoldable pub outcome_detail : DispatchRequest → DispatchOutcome → String
outcome_detail dreq o =
    "outcome="
    +++ outcome_status_text o.status
    +++ " partially_applied="
    +++ bool_text o.partially_applied
    +++ " idempotency_key="
    +++ dreq.idempotency_key
    +++ " target="
    +++ dreq.proposal.target_id
    +++ " detail="
    +++ quote o.detail

-- `auditVerdict`
abbrev pub audit_verdict : OutcomeStatus → AuditVerdict
audit_verdict OutcomeStatus.success = AuditVerdict.pass
audit_verdict OutcomeStatus.failure = AuditVerdict.fail
audit_verdict _ = AuditVerdict.unknown

abbrev pub is_unknown : OutcomeStatus → Bool
is_unknown OutcomeStatus.unknown = true
is_unknown _ = false

abbrev pub is_failure : OutcomeStatus → Bool
is_failure OutcomeStatus.failure = true
is_failure _ = false

-- The error of an audit write that must not be lost.
abbrev pub finish_audited : Option TaskError → Workflow → Workflow
finish_audited none next = next
finish_audited (some e) next = Workflow.finish (some (WorkflowError.audit_failed e.message))

-- Confirmed success.
unfoldable pub succeed : Run → String → ℕ → Option TaskError → Workflow
unfolding transition record_phase
succeed run token seq audit_error = transition run token ClaimState.completed (λ advanced.
    finish_audited advanced (
      finish_audited audit_error (
        record_phase run (suc seq) AuditPhase.workflow_complete AuditVerdict.pass
          "workflow completed without compensation"
          (λ written. finish_audited written (Workflow.finish none)))))

abbrev pub failed_with : String → Workflow
failed_with failure =
    Workflow.finish (some (WorkflowError.application failure dispatch_failed_type none []))

unfoldable pub record_failure : Run → ℕ → String → Workflow
unfolding record_phase
record_failure run seq failure =
    record_phase run (suc seq) AuditPhase.workflow_failed AuditVerdict.fail failure
      (λ _. failed_with failure)

-- What follows the compensation activity.
unfoldable pub after_compensation : Run → ℕ → DispatchOutcome → Option TaskError → Workflow
unfolding record_phase record_failure
after_compensation run seq o none =
    record_phase run (suc seq) AuditPhase.compensation AuditVerdict.pass
      "compensation activity completed"
      (λ _.
        record_failure run (suc seq)
          ("dispatch partly applied and compensation ran: " +++ o.detail))
after_compensation run seq o (some e) =
    record_phase run (suc seq) AuditPhase.compensation AuditVerdict.fail e.message (λ _.
      record_failure run (suc seq)
        ("dispatch partly applied and compensation failed: " +++ e.message))

-- Confirmed failure.
unfoldable pub fail : Run → String → ℕ → DispatchOutcome → Workflow
unfolding transition after_compensation record_failure
fail run token seq o = transition run token ClaimState.failed (λ _.
    if o.partially_applied
    then Workflow.ask (Command.compensate (dispatch_request run)) (after_compensation run seq o)
    else record_failure run seq ("dispatch failed: " +++ o.detail))

-- A confirmed outcome.
unfoldable pub conclude : Run → String → ℕ → DispatchOutcome → Option TaskError → Workflow
unfolding succeed fail
conclude run token seq o audit_error =
    if is_failure o.status then fail run token seq o else succeed run token seq audit_error

abbrev pub reconcile_first_wait : ℕ
reconcile_first_wait = 10000000000

abbrev pub reconcile_max_wait : ℕ
reconcile_max_wait = 1800000000000

abbrev pub reconcile_window : ℕ
reconcile_window = 86400000000000

abbrev pub min : ℕ → ℕ → ℕ
min a b = if ltb b a then b else a

abbrev pub reconciled : Result TaskError DispatchOutcome → DispatchOutcome
reconciled (ok o) = checked o
reconciled (err e) =
    checked (unknown_outcome ("reconciliation activity returned no outcome: " +++ e.message))

-- A cancelled timer ends the loop.
abbrev pub after_sleep : Option TaskError → Workflow → Workflow → Workflow
after_sleep none stop again = again
after_sleep (some _) stop again = stop

-- The loop of `reconcileDispatch`; `next` is what the workflow does with the outcome.
unfoldable pub reconcile_loop :
    ℕ → DispatchRequest → Time → ℕ → (DispatchOutcome → Workflow) → Workflow
reconcile_loop zero dreq start wait next = Workflow.out_of_fuel
reconcile_loop (suc fuel) dreq start wait next = Workflow.ask (Command.reconcile dreq) (λ answer.
    let o = reconciled answer in
    if not (is_unknown o.status)
    then next o
    else Workflow.ask Command.now (λ at.
      if ltb reconcile_window (at - start + wait)
      then next o
      else Workflow.ask (Command.sleep wait) (λ slept.
        after_sleep slept (next o)
          (reconcile_loop fuel dreq start (min (2 * wait) reconcile_max_wait) next))))

-- A wait takes 10 seconds at least, so 8641 rounds fill the window.
unfoldable pub reconcile_fuel : ℕ
reconcile_fuel = 8641

-- `reconcileDispatch`
unfoldable pub reconcile_dispatch : DispatchRequest → (DispatchOutcome → Workflow) → Workflow
reconcile_dispatch dreq next =
    Workflow.ask Command.now
      (λ start. reconcile_loop reconcile_fuel dreq start reconcile_first_wait next)

-- What follows the reconciliation.
unfoldable pub after_reconciliation : Run → String → ℕ → DispatchOutcome → Workflow
unfolding record_phase outcome_detail conclude
after_reconciliation run token seq o =
    record_phase run (suc seq) AuditPhase.reconciliation (audit_verdict o.status)
      (outcome_detail (dispatch_request run) o)
      (λ written.
        if is_unknown o.status
        then Workflow.finish (
            some (
              WorkflowError.application
                "dispatch outcome unknown after reconciliation; execution claim left in RECONCILIATION_REQUIRED"
                outcome_unknown_type none (execution_key run.req.ingress_decision_id ∷ [])))
        else conclude run token (suc seq) o written)

-- Once the outcome of the dispatch is recorded.
unfoldable pub settle : Run → String → ℕ → DispatchOutcome → Option TaskError → Workflow
unfolding transition reconcile_dispatch after_reconciliation conclude
settle run token seq o audit_error =
    if is_unknown o.status
    then transition run token ClaimState.reconciliation_required
        (λ _. reconcile_dispatch (dispatch_request run) (after_reconciliation run token seq))
    else conclude run token seq o audit_error

-- `fenceFailure`: the type of an error that says that the adapter was not called.
unfoldable pub fence_failure : TaskError → Option String
fence_failure e = elim e.type [
  | none ↦ none
  | some t ↦ if t == fence_rejected_type || t == fence_unknown_type then some t else none
]

-- The attempt to give the claim back after the fence was not acquired.
unfoldable pub after_release : Run → String → ℕ → TaskError → String → Option TaskError → Workflow
unfolding record_phase outcome_detail settle unknown_outcome
after_release run token seq e fence released =
    if is_none released || fence == fence_rejected_type
    then record_phase run (suc seq) AuditPhase.execution_fence AuditVerdict.fail
        ("adapter not called: released="
          +++ bool_text (is_none released)
          +++ " ingress_decision_id="
          +++ run.req.ingress_decision_id
          +++ " error="
          +++ quote e.message)
        (λ _. Workflow.finish (
          some (
            WorkflowError.application "execution fence not acquired; proposal not executed"
              claim_rejected_type (some e) [])))
    else (let o =
          unknown_outcome
            ("execution fence may have committed; adapter not called: " +++ e.message) in
        record_phase run (suc seq) AuditPhase.execution_fence AuditVerdict.unknown
          (outcome_detail (dispatch_request run) o) (settle run token (suc seq) o))

unfoldable pub record_outcome : Run → String → ℕ → DispatchOutcome → Workflow
unfolding record_phase outcome_detail settle checked
record_outcome run token seq o =
    record_phase run (suc seq) AuditPhase.dispatch (audit_verdict (checked o).status)
      (outcome_detail (dispatch_request run) (checked o)) (settle run token (suc seq) (checked o))

-- The dispatch activity failed: with a fence error or another one.
unfoldable pub after_error : Run → String → ℕ → TaskError → Option String → Workflow
unfolding record_outcome after_release transition unknown_outcome
after_error run token seq e none =
    record_outcome run token seq
      (unknown_outcome ("dispatch activity returned no outcome: " +++ e.message))
after_error run token seq e (some fence) =
    transition run token ClaimState.released (after_release run token seq e fence)

unfoldable pub after_dispatch : Run → String → ℕ → Result TaskError DispatchOutcome → Workflow
unfolding record_outcome fence_failure after_error
after_dispatch run token seq (ok o) = record_outcome run token seq o
after_dispatch run token seq (err e) = after_error run token seq e (fence_failure e)

-- Dispatch: scheduled once, never retried.
unfoldable pub dispatch_phase : Run → String → ℕ → Workflow
unfolding after_dispatch
dispatch_phase run token seq =
    Workflow.ask (Command.dispatch (fenced_request run token)) (after_dispatch run token seq)
