-- ===== src/Decision/Ingress.antt =====
-- internal/decision/ingress.go: whether a record is an ingress ALLOW for exactly this execution.
-- `GetDecision`, the store's read, is the argument `loaded` of `check_ingress`.
pub mod Binding
pub mod Content
use sentry_gate_ai.Prelude.{
  String, ℕ, List, Bool, true, false, not, ◌||◌, ◌==◌, Option, none, some, ◌+++◌, if◌then◌else◌,
}
use sentry_gate_ai.Contracts.{
  Error, Sentinel, sentinel, wrap, errors_is, Result, ok, err, decision_not_found,
  ingress_decision_not_found, ingress_wrong_stage, ingress_not_allowed, ingress_agent_mismatch,
  ingress_hash_mismatch, ingress_identity_mismatch, DecisionRecord, DecisionStage, Verdict,
  ExecutionRequest, ReasonCode, stage_text, verdict_text,
}
use sentry_gate_ai.Decision.Hash.{request_hash}

abbrev pub is_ingress : DecisionStage → Bool
is_ingress DecisionStage.ingress = true
is_ingress _ = false

abbrev pub is_allow : Verdict → Bool
is_allow Verdict.allow = true
is_allow _ = false

unfoldable pub verify_ingress :
    (List ℕ → String) → DecisionRecord → ExecutionRequest → String → Option Error
verify_ingress sha256_hex rec req workflow_id =
    if rec.decision_id == "" || not (rec.decision_id == req.ingress_decision_id)
    then some (sentinel ingress_decision_not_found)
    else if not (is_ingress rec.stage)
    then some (wrap "" (sentinel ingress_wrong_stage) (": got " +++ stage_text rec.stage))
    else if not (is_allow rec.verdict)
    then some (wrap "" (sentinel ingress_not_allowed) (": got " +++ verdict_text rec.verdict))
    else if not (rec.agent_id == req.agent_id)
    then some (sentinel ingress_agent_mismatch)
    else if not (rec.request_hash == request_hash sha256_hex req.proposal)
    then some (sentinel ingress_hash_mismatch)
    else if not (rec.proposal_id == req.proposal.id)
    then some (wrap "" (sentinel ingress_identity_mismatch) ": proposal ID")
    else if rec.workflow_id == "" || not (rec.workflow_id == workflow_id)
    then some (wrap "" (sentinel ingress_identity_mismatch) ": workflow ID")
    else none

check_loaded :
    (List ℕ → String) → Result Error DecisionRecord → ExecutionRequest → String → Option Error
unfolding errors_is
check_loaded sha256_hex (ok rec) req workflow_id = verify_ingress sha256_hex rec req workflow_id
check_loaded sha256_hex (err e) req workflow_id =
    if errors_is e decision_not_found
    then some (sentinel ingress_decision_not_found)
    else some (wrap "load ingress decision: " e "")

-- `CheckIngress`, with the store's answer to `GetDecision(req.IngressDecisionID)`.
unfoldable pub check_ingress :
    (List ℕ → String) → Result Error DecisionRecord → ExecutionRequest → String → Option Error
unfolding check_loaded
check_ingress sha256_hex loaded req workflow_id =
    if req.ingress_decision_id == ""
    then some (sentinel ingress_decision_not_found)
    else check_loaded sha256_hex loaded req workflow_id

-- `IngressReason`: `none` for an error that is no verification failure.
unfoldable pub ingress_reason : Error → Option ReasonCode
unfolding errors_is
ingress_reason e =
    if errors_is e ingress_decision_not_found
    then some ReasonCode.decision_not_found
    else if errors_is e ingress_wrong_stage
    then some ReasonCode.decision_wrong_stage
    else if errors_is e ingress_not_allowed
    then some ReasonCode.decision_not_allow
    else if errors_is e ingress_agent_mismatch
    then some ReasonCode.agent_mismatch
    else if errors_is e ingress_hash_mismatch
    then some ReasonCode.hash_mismatch
    else if errors_is e ingress_identity_mismatch
    then some ReasonCode.identity_mismatch
    else none
