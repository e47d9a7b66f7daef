-- ===== src/Workflows/Saga/Phases/Before.antt =====
-- workflows/saga.go: the phases before dispatch, the last one first, and the workflow itself.
use sentry_gate_ai.Prelude.{String, ℕ, List, [], ◌∷◌, Option, none, some, ◌+++◌, if◌then◌else◌}
use sentry_gate_ai.Contracts.{
  Result, ok, err, Time, ClaimState, ReasonCode, reason_text, Decision, DecisionRecord,
  DecisionStage, Verdict, verdict_text, AuditPhase, AuditVerdict, IngressVerification, ClaimResult,
  quote,
}
use sentry_gate_ai.Decision.Hash.{request_hash}
use sentry_gate_ai.Decision.Ingress.{is_allow}
use sentry_gate_ai.Workflows.Activities.{claim_rejected_type}
use sentry_gate_ai.Workflows.Saga.{TaskError, WorkflowError, Command, Workflow}
use sentry_gate_ai.Workflows.Saga.Phases.{Run, record_phase, transition, dispatch_phase}

abbrev pub ingress_invalid_type : String
ingress_invalid_type = "INGRESS_DECISION_INVALID"

abbrev pub revalidation_denied_type : String
revalidation_denied_type = "REVALIDATION_DENIED"

-- `joinReasons`
unfoldable pub join_reasons : List ReasonCode → String
join_reasons [] = ""
join_reasons (r ∷ []) = reason_text r
join_reasons (r ∷ s ∷ rs) = reason_text r +++ "," +++ join_reasons (s ∷ rs)

-- A non-retryable error without a cause.
abbrev pub rejection : String → String → WorkflowError
rejection message type = WorkflowError.application message type none []

module _ (sha256_hex : List ℕ → String) (run : Run) where
  -- The record of `recordDecision`
  abbrev pub decision_record : Decision → Time → DecisionRecord
  decision_record dec at = record {
    decision_id = "wf_" +++ run.workflow_id +++ "_" +++ run.run_id;
    stage = DecisionStage.workflow_revalidation;
    proposal_id = run.req.proposal.id;
    agent_id = run.req.agent_id;
    request_hash = request_hash sha256_hex run.req.proposal;
    command = run.req.proposal.type;
    target_id = run.req.proposal.target_id;
    environment = dec.environment;
    verdict = dec.verdict;
    reasons = dec.reasons;
    policy_version = dec.policy_version;
    policy_digest = dec.policy_digest;
    workflow_id = run.workflow_id;
    trace_id = "";
    recorded_at = at;
  }

  -- `recordDecision`
  unfoldable pub record_decision_then : Decision → (Option TaskError → Workflow) → Workflow
  record_decision_then dec next =
      Workflow.ask Command.now
        (λ at. Workflow.ask (Command.record_decision (decision_record dec at)) next)

  abbrev pub denial : ReasonCode → Decision
  denial reason = record {
    verdict = Verdict.deny;
    reasons = reason ∷ [];
    environment = "";
    policy_version = "";
    policy_digest = "";
  }

  -- `reject`
  unfoldable pub reject : String → ReasonCode → String → Workflow
  unfolding record_decision_then record_phase
  reject type reason detail = record_decision_then (denial reason) (λ _.
      record_phase run 1 AuditPhase.revalidation AuditVerdict.fail
        ("execution rejected: reason="
          +++ reason_text reason
          +++ " detail="
          +++ quote detail
          +++ " ingress_decision_id="
          +++ quote run.req.ingress_decision_id)
        (λ _. Workflow.finish (
          some (
            WorkflowError.application ("execution rejected: " +++ reason_text reason) type none
              (reason_text reason ∷ [])))))

  -- An exit after the claim was asked for: the deferred release, then the error.
  unfoldable pub release_and_finish : String → WorkflowError → Workflow
  unfolding transition
  release_and_finish token e =
      transition run token ClaimState.released (λ _. Workflow.finish (some e))

  abbrev pub phase_detail : Decision → String
  phase_detail dec =
      "verdict="
      +++ verdict_text dec.verdict
      +++ " reasons="
      +++ join_reasons dec.reasons
      +++ " policy_version="
      +++ dec.policy_version
      +++ " ingress_decision_id="
      +++ run.req.ingress_decision_id

  -- The re-validation did not answer ALLOW.
  unfoldable pub deny : String → Decision → Workflow
  unfolding record_phase release_and_finish join_reasons
  deny token dec =
      record_phase run 1 AuditPhase.revalidation AuditVerdict.fail (phase_detail dec) (λ _.
        release_and_finish token (
          rejection
            ("proposal denied at workflow re-validation: "
              +++ verdict_text dec.verdict
              +++ " "
              +++ join_reasons dec.reasons)
            revalidation_denied_type))

  -- ALLOW is recorded and audited before anything is dispatched.
  unfoldable pub after_audit : String → Option TaskError → Workflow
  unfolding dispatch_phase release_and_finish
  after_audit token none = dispatch_phase run token 1
  after_audit token (some e) = release_and_finish token (WorkflowError.audit_failed e.message)

  unfoldable pub after_allow : String → Decision → Option TaskError → Workflow
  unfolding record_phase after_audit release_and_finish join_reasons
  after_allow token dec none =
      record_phase run 1 AuditPhase.revalidation AuditVerdict.pass (phase_detail dec)
        (after_audit token)
  after_allow token dec (some e) = release_and_finish token (WorkflowError.audit_failed e.message)

  -- The policy's answer.
  unfoldable pub after_evaluation : String → Result TaskError Decision → Workflow
  unfolding record_decision_then deny after_allow release_and_finish
  after_evaluation token (err e) = release_and_finish token (
      WorkflowError.application "re-validation unavailable; proposal not executed"
        revalidation_denied_type (some e) [])
  after_evaluation token (ok dec) =
      record_decision_then dec (λ recorded.
        if is_allow dec.verdict then after_allow token dec recorded else deny token dec)

  -- The store's answer to the claim.
  unfoldable pub after_claim : String → Result TaskError ClaimResult → Workflow
  unfolding reject after_evaluation release_and_finish
  after_claim token (err e) = release_and_finish token (
      WorkflowError.application "execution claim could not be acquired; proposal not executed"
        claim_rejected_type (some e) [])
  after_claim token (ok c) =
      if c.claimed
      then Workflow.ask (Command.evaluate run.req) (after_evaluation token)
      else reject claim_rejected_type c.reason c.detail

  -- The token that this run presents.
  unfoldable pub after_token : Result TaskError String → Workflow
  unfolding after_claim
  after_token (err e) = Workflow.finish (
      some (
        WorkflowError.application "execution token unavailable; proposal not executed"
          claim_rejected_type (some e) []))
  after_token (ok random) =
      let token = "exe_" +++ random in
      Workflow.ask
        (Command.claim (record { decision_id = run.req.ingress_decision_id; token = token }))
        (after_claim token)

  unfoldable pub after_verification : Result TaskError IngressVerification → Workflow
  unfolding reject after_token
  after_verification (err e) = Workflow.finish (
      some (
        WorkflowError.application "ingress decision could not be verified; proposal not executed"
          ingress_invalid_type (some e) []))
  after_verification (ok v) =
      if v.valid
      then Workflow.ask Command.random_text after_token
      else reject ingress_invalid_type v.reason v.detail

  -- `SentryGateSagaWorkflow`
  unfoldable pub saga : Workflow
  unfolding after_verification
  saga = Workflow.ask (Command.verify_ingress run.req) after_verification
