-- ===== src/Server/Intercept.antt =====
-- cmd/sentrygate/handler.go: `intercept`, from the authenticated request to the started workflow.
use sentry_gate_ai.Prelude.{String, ℕ, Bool, true, List, Option, none, some, ◌+++◌, if◌then◌else◌}
use sentry_gate_ai.Contracts.{
  Error, Result, ok, err, Time, AgentProposal, Decision, DecisionRecord, DecisionStage, Verdict,
  ExecutionRequest,
}
use sentry_gate_ai.Auth.Context.{agent_id_from_context}
use sentry_gate_ai.Policy.{Snapshot}
use sentry_gate_ai.Decision.Hash.{request_hash}
use sentry_gate_ai.Decision.Ingress.{is_allow}
use sentry_gate_ai.Proxy.{Wait, acquire_proposal, evaluate_throttled}
use sentry_gate_ai.Server.Request.{
  Json, decode_proposal, DecisionStore, WorkflowStarter, StartOptions, StartError, already_started,
  failed, WorkflowRun, InterceptResponse, Response, zero_response, write_error,
}

-- One request: the agent ID that the middleware put in the context, the body, and what the handler draws from its
-- surroundings. Each use of the request's context has its own Boolean.
pub record InterceptCall (B : Type 0) : Type 0 where
  pub agent_id : Option String
  pub envelope : AgentProposal
  pub body : B
  pub ended_evaluate : Bool
  pub wait : Wait
  pub decision_id : String
  pub trace_id : String
  pub now : Time
  pub ended_append : Bool
  pub ended_start : Bool

module _ (sha256_hex : List ℕ → String) {B S W : Type 0} (json : Json B) (store : DecisionStore S)
    (starter : WorkflowStarter W) (policy : Option Snapshot) (task_queue : String) where
  abbrev pub workflow_id : AgentProposal → String
  workflow_id p = "saga-" +++ p.id

  -- The record of the decision
  unfoldable pub ingress_record :
      InterceptCall B → String → AgentProposal → Decision → DecisionRecord
  unfolding request_hash
  ingress_record call agent_id p d = record {
    decision_id = call.decision_id;
    stage = DecisionStage.ingress;
    proposal_id = p.id;
    agent_id = agent_id;
    request_hash = request_hash sha256_hex p;
    command = p.type;
    target_id = p.target_id;
    environment = d.environment;
    verdict = d.verdict;
    reasons = d.reasons;
    policy_version = d.policy_version;
    policy_digest = d.policy_digest;
    workflow_id = if is_allow d.verdict then workflow_id p else "";
    trace_id = call.trace_id;
    recorded_at = call.now;
  }

  unfoldable pub execution_request : InterceptCall B → String → AgentProposal → ExecutionRequest
  unfolding request_hash
  execution_request call agent_id p = record {
    agent_id = agent_id;
    proposal = p;
    ingress_decision_id = call.decision_id;
    request_hash = request_hash sha256_hex p;
  }

  -- The response, as far as it is known once the decision was recorded or not
  unfoldable pub base_response :
      InterceptCall B → AgentProposal → Decision → Option Error → InterceptResponse
  base_response call p d record_error = record zero_response {
    verdict = d.verdict;
    reasons = d.reasons;
    decision_id = elim record_error [ none ↦ call.decision_id | some _ ↦ "" ];
    proposal_id = p.id;
  }

  -- The answer to `ExecuteWorkflow`
  unfoldable pub after_start :
      AgentProposal → InterceptResponse → Result StartError WorkflowRun → Response
  after_start p resp (err already_started) = record {
    code = 409;
    body = record resp {
      status = "not_executed";
      error = "a workflow for this proposal id is already running; this request was not executed";
    };
  }
  after_start p resp (err (failed e)) = write_error 502 "error" "failed to start workflow"
  after_start p resp (ok run) = record {
    code = 200;
    body = record resp {
      status = "accepted";
      workflow_id = run.id;
      run_id = run.run_id;
      next = "GET /v1/decisions/" +++ p.id +++ " and /v1/audit/" +++ p.id;
    };
  }

  -- `a.workflows.ExecuteWorkflow`
  unfoldable pub start_options : AgentProposal → StartOptions
  start_options p = record {
    id = workflow_id p;
    task_queue = task_queue;
    error_when_already_started = true;
  }

  -- An ALLOW: without a durable record no workflow may start.
  start_recorded :
      InterceptCall B → String → AgentProposal → InterceptResponse → Option Error → W → W × Response
  unfolding after_start start_options execution_request
  start_recorded call agent_id p resp (some e) w =
      (w, write_error 503 "unavailable" "decision could not be recorded; proposal not executed")
  start_recorded call agent_id p resp none w =
      let (w', r) =
        starter.execute_workflow w call.ended_start (start_options p)
          (execution_request call agent_id p) in
      (w', after_start p resp r)

  -- The `switch` on the verdict
  after_record :
      InterceptCall B
      → String
      → AgentProposal
      → Decision
      → Verdict
      → Option Error
      → W
      → W × Response
  unfolding start_recorded base_response
  after_record call agent_id p d Verdict.deny e w =
      (w, record { code = 403; body = record (base_response call p d e) { status = "rejected" } })
  after_record call agent_id p d Verdict.require_approval e w = (
    w,
    record { code = 403; body = record (base_response call p d e) { status = "not_executed" } },
  )
  after_record call agent_id p d Verdict.allow e w =
      start_recorded call agent_id p (base_response call p d e) e w
  after_record call agent_id p d (Verdict.other x) e w =
      (w, write_error 500 "error" "internal error")

  unfoldable pub after_evaluate :
      InterceptCall B → String → AgentProposal → Decision → S → W → (S × W) × Response
  unfolding after_record ingress_record
  after_evaluate call agent_id p d s w =
      let (s', e) = store.append_decision s call.ended_append (ingress_record call agent_id p d) in
      let (w', response) = after_record call agent_id p d d.verdict e w in ((s', w'), response)

  unfoldable pub after_decode :
      InterceptCall B → String → AgentProposal → S → W → (S × W) × Response
  unfolding after_evaluate evaluate_throttled
  after_decode call agent_id p s w =
      elim (evaluate_throttled policy call.ended_evaluate call.wait agent_id p) [
        | err e ↦ ((s, w), write_error 503 "unavailable" "request cancelled before evaluation")
        | ok d ↦ after_evaluate call agent_id p d s w
      ]

  -- `intercept`
  unfoldable pub intercept : InterceptCall B → S → W → (S × W) × Response
  unfolding after_decode decode_proposal acquire_proposal agent_id_from_context
  intercept call s w = elim (agent_id_from_context call.agent_id) [
    | none ↦ ((s, w), write_error 401 "unauthorized" "missing or invalid API key")
    | some agent_id ↦ elim (decode_proposal json (acquire_proposal call.envelope) call.body) [
      | err (code, message) ↦ ((s, w), write_error code "invalid" message)
      | ok p ↦ after_decode call agent_id p s w
    ]
  ]
