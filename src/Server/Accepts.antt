-- ===== src/Server/Accepts.antt =====
-- When `intercept` answers 200, and when it has asked for a workflow.
use sentry_gate_ai.Prelude.{
  String, ◌≡◌, ◌≢◌, ◌⊎◌, ◌↔◌, ℕ, Bool, false, refl, ◌+++◌, List, Option, none, some, arith,
  Option-cases, inl, inr,
}
use sentry_gate_ai.Contracts.{Error, Result, Result-cases, ok, err, AgentProposal, Verdict}
use sentry_gate_ai.Auth.Context.{agent_id_from_context, agent_id_from_context_iff}
use sentry_gate_ai.Policy.{Snapshot}
use sentry_gate_ai.Decision.Evaluate.{evaluate}
use sentry_gate_ai.Proxy.{acquire_proposal, evaluate_throttled, slot}
use sentry_gate_ai.Server.Request.{
  Json, decode_proposal, DecisionStore, WorkflowStarter, StarterLaws, WorkflowRun, StartError,
  Response,
}
use sentry_gate_ai.Server.Intercept.{
  InterceptCall, intercept, after_decode, after_evaluate, after_start, ingress_record,
  execution_request, start_options,
}

-- `decodeProposal` fails with 400 or 413 only.
decode_proposal-code :
    {B : Type 0} (json : Json B) (p : AgentProposal) (body : B) (code : ℕ) (message : String)
    → decode_proposal json p body ≡ err (code, message)
    → (code ≡ 400) ⊎ (code ≡ 413)
unfolding decode_proposal
decode_proposal-code json p body code message h = ground arith

module _ (sha256_hex : List ℕ → String) {B S W : Type 0} (json : Json B) (store : DecisionStore S)
    (starter : WorkflowStarter W) (policy : Option Snapshot) (task_queue : String)
    (running : W → String → Bool) (temporal : StarterLaws W starter running)
    (call : InterceptCall B) (s : S) (w : W) where
  abbrev answer : (S × W) × Response
  answer = intercept sha256_hex json store starter policy task_queue call s w

  abbrev appended : String → AgentProposal → S × Option Error
  appended agent_id p = store.append_decision s call.ended_append (
      ingress_record sha256_hex json store starter policy task_queue call agent_id p
        (evaluate policy agent_id p))

  abbrev started : String → AgentProposal → W × Result StartError WorkflowRun
  started agent_id p =
      starter.execute_workflow w call.ended_start
        (start_options sha256_hex json store starter policy task_queue p)
        (execution_request sha256_hex json store starter policy task_queue call agent_id p)

  -- Each gate that the request has passed
  pub record IsAccepted : Type 0 where
    pub agent_id : String
    pub proposal : AgentProposal
    pub run : WorkflowRun
    pub authenticated : call.agent_id ≡ some agent_id
    pub identified : agent_id ≢ ""
    pub decoded : decode_proposal json (acquire_proposal call.envelope) call.body ≡ ok proposal
    pub live : call.ended_evaluate ≡ false
    pub evaluated : call.wait ≡ slot
    pub allowed : (evaluate policy agent_id proposal).verdict ≡ Verdict.allow
    pub recorded : (appended agent_id proposal).1 ≡ none
    pub new : running w ("saga-" +++ proposal.id) ≡ false
    pub begun : (started agent_id proposal).1 ≡ ok run

  accepted : IsAccepted → answer.1.code ≡ 200
  unfolding intercept after_decode after_evaluate after_start evaluate_throttled
  accepted a =
      rw (intercept, (agent_id_from_context_iff _ _).1 (a.authenticated, a.identified), a.decoded)
        (ground (arith, a.live, a.evaluated, a.allowed, a.recorded, a.begun))

  evaluated-code :
      (agent_id : String) (p : AgentProposal)
      → (after_evaluate sha256_hex json store starter policy task_queue call agent_id p
          (evaluate policy agent_id p)
          s
          w).1.code
        ≡ 200
      → ((evaluate policy agent_id p).verdict ≡ Verdict.allow)
        × ((appended agent_id p).1 ≡ none)
        × ((run : WorkflowRun) × ((started agent_id p).1 ≡ ok run))
  unfolding after_evaluate after_start
  evaluated-code agent_id p h = elim (Result-cases (started agent_id p).1) [
    | inl (run, r) ↦ (ground (arith, r), ground (arith, r), (run, r))
    | inr (e, r) ↦ absurd (ground (arith, r))
  ]

  -- The start asked for an error if a workflow with the ID was running.
  new_run :
      (agent_id : String) (p : AgentProposal) (run : WorkflowRun)
      → (started agent_id p).1 ≡ ok run
      → running w ("saga-" +++ p.id) ≡ false
  unfolding start_options
  new_run agent_id p run h =
      temporal.started_new w call.ended_start
        (start_options sha256_hex json store starter policy task_queue p)
        (execution_request sha256_hex json store starter policy task_queue call agent_id p) run refl
        h

  passes :
      (agent_id : String) (p : AgentProposal)
      → agent_id_from_context call.agent_id ≡ some agent_id
      → decode_proposal json (acquire_proposal call.envelope) call.body ≡ ok p
      → answer.1.code ≡ 200
      → (call.ended_evaluate ≡ false)
        × (call.wait ≡ slot)
        × ((after_evaluate sha256_hex json store starter policy task_queue call agent_id p
              (evaluate policy agent_id p)
              s
              w).1.code
            ≡ 200)
  unfolding intercept after_decode evaluate_throttled
  passes agent_id p a d h = ground (arith, a, d)

  accepting : answer.1.code ≡ 200 → IsAccepted
  unfolding intercept after_decode evaluate_throttled
  accepting h = elim (Option-cases (agent_id_from_context call.agent_id)) [
    | inl a ↦ absurd (ground (arith, a))
    | inr (agent_id, a) ↦
        elim (Result-cases (decode_proposal json (acquire_proposal call.envelope) call.body)) [
          | inr ((code, message), d) ↦
              let bad =
                decode_proposal-code json (acquire_proposal call.envelope) call.body code message
                  d in
              absurd (ground (arith, a, d, bad))
          | inl (p, d) ↦
              let (live, free, code) = passes agent_id p a d h in
              let (allowed, recorded, (run, begun)) = evaluated-code agent_id p code in
              record {
                agent_id = agent_id;
                proposal = p;
                run = run;
                authenticated = ((agent_id_from_context_iff call.agent_id agent_id).0 a).0;
                identified = ((agent_id_from_context_iff call.agent_id agent_id).0 a).1;
                decoded = d;
                live = live;
                evaluated = free;
                allowed = allowed;
                recorded = recorded;
                new = new_run agent_id p run begun;
                begun = begun;
              }
        ]
  ]

  -- Over a workflow service that keeps what Temporal documents, intercept answers 200 exactly when the
  -- request is authenticated with an agent ID and well formed, gets a slot in a live context, is
  -- allowed by the policy, its decision record is accepted by the store, no workflow with the ID of the
  -- proposal's saga is running, and the workflow service starts a run for it.
  pub intercept_accepted_iff : (answer.1.code ≡ 200) ↔ IsAccepted
  intercept_accepted_iff = (accepting, accepted)
