-- ===== src/Server/Backed.antt =====
-- What `intercept` starts is backed by what it recorded.
use sentry_gate_ai.Prelude.{
  refl, sym, ap, ◌∙◌, String, ◌≡◌, ◌≢◌, ◌<◌, ◌⊎◌, ℕ, true, List, Option, none, some, arith,
  Option-cases, Bool-cases, inl, inr, eq_iff, ◌+++◌,
}
use text.Mathlib.TextLemmas.{append-eq-nil_iff}
use sentry_gate_ai.Contracts.{
  Error, Result, Result-cases, ok, AgentProposal, Decision, DecisionRecord, Verdict,
  ExecutionRequest, record_equal, year_10000,
}
use sentry_gate_ai.Auth.Context.{agent_id_from_context, agent_id_from_context_iff}
use sentry_gate_ai.Policy.{Snapshot}
use sentry_gate_ai.Decision.Evaluate.{evaluate}
use sentry_gate_ai.Decision.Ingress.{verify_ingress}
use sentry_gate_ai.Decision.Ingress.Binding.{verify_ingress_iff}
use sentry_gate_ai.Proxy.{acquire_proposal, evaluate_throttled, Wait, slot, ctx_done}
use sentry_gate_ai.Server.Request.{
  Json, decode_proposal, DecisionStore, WorkflowStarter, StartOptions, Response,
}
use sentry_gate_ai.Server.Intercept.{
  InterceptCall, intercept, after_decode, after_evaluate, ingress_record, execution_request,
  start_options,
}
use sentry_gate_ai.Server.Contract.{IsKept, DecisionStoreLaws}

Wait-cases : (x : Wait) → (x ≡ slot) ⊎ (x ≡ ctx_done)
Wait-cases slot = inl refl
Wait-cases ctx_done = inr refl

saga_id : (s : String) → ("saga-" +++ s) ≢ ""
saga_id s h = let (literal, _) = append-eq-nil_iff.0 h in absurd (ground (arith, eq_iff "saga-" ""))

module _ (sha256_hex : List ℕ → String) {B S W : Type 0} (json : Json B) (store : DecisionStore S)
    (starter : WorkflowStarter W) (policy : Option Snapshot) (task_queue : String)
    (recorded : S → String → Option DecisionRecord) (IsSound : S → Type 0)
    (laws : DecisionStoreLaws S store recorded IsSound) (call : InterceptCall B) (s : S)
    (w : W) where
  abbrev answer : (S × W) × Response
  answer = intercept sha256_hex json store starter policy task_queue call s w

  -- The workflow that was asked for is that of an agent that was authenticated and of a proposal that
  -- the policy allows, and the record that the request names passes `VerifyIngress` for the workflow
  -- ID with which it is started.
  pub record Starts : Type 0 where
    pub request : ExecutionRequest
    pub options : StartOptions
    pub asked : answer.0.1 ≡ (starter.execute_workflow w call.ended_start options request).0
    pub exclusive : options.error_when_already_started ≡ true
    pub authenticated : call.agent_id ≡ some request.agent_id
    pub identified : request.agent_id ≢ ""
    pub allowed : (evaluate policy request.agent_id request.proposal).verdict ≡ Verdict.allow
    pub backing : DecisionRecord
    pub found : recorded answer.0.0 request.ingress_decision_id ≡ some backing
    pub verified : verify_ingress sha256_hex backing request options.id ≡ none

  abbrev record_of : String → AgentProposal → Decision → DecisionRecord
  record_of = ingress_record sha256_hex json store starter policy task_queue call

  abbrev request_of : String → AgentProposal → ExecutionRequest
  request_of = execution_request sha256_hex json store starter policy task_queue call

  -- The texts that `Equal` compares
  kept_texts :
      (rec r : DecisionRecord)
      → record_equal r rec ≡ true
      → (r.decision_id ≡ rec.decision_id)
        × (r.agent_id ≡ rec.agent_id)
        × (r.request_hash ≡ rec.request_hash)
        × (r.proposal_id ≡ rec.proposal_id)
        × (r.workflow_id ≡ rec.workflow_id)
  unfolding record_equal
  kept_texts rec r h = (
    ground (arith, eq_iff r.decision_id rec.decision_id),
    ground (arith, eq_iff r.agent_id rec.agent_id),
    ground (arith, eq_iff r.request_hash rec.request_hash),
    ground (arith, eq_iff r.proposal_id rec.proposal_id),
    ground (arith, eq_iff r.workflow_id rec.workflow_id),
  )

  verified :
      (agent_id : String) (p : AgentProposal) (d : Decision) (r : DecisionRecord)
      → call.decision_id ≢ ""
      → d.verdict ≡ Verdict.allow
      → IsKept (record_of agent_id p d) r
      → verify_ingress sha256_hex r (request_of agent_id p) ("saga-" +++ p.id) ≡ none
  unfolding ingress_record execution_request
  verified agent_id p d r named allowed kept =
      let (id, agent, hash, proposal, workflow) = kept_texts (record_of agent_id p d) r kept.same in
      let saga : r.workflow_id ≡ "saga-" +++ p.id = workflow ∙ rw allowed refl in
      (verify_ingress_iff sha256_hex r (request_of agent_id p) ("saga-" +++ p.id)).1 (record {
        named = λ e. named (sym id ∙ e);
        decision = id;
        stage = kept.ingress refl;
        verdict = kept.allow allowed;
        agent = agent;
        hash = hash;
        proposal = proposal;
        started = λ e. saga_id p.id (sym saga ∙ e);
        workflow = saga;
      })

  abbrev evaluated : String → AgentProposal → Decision → (S × W) × Response
  evaluated agent_id p d =
      after_evaluate sha256_hex json store starter policy task_queue call agent_id p d s w

  abbrev appended : String → AgentProposal → Decision → S × Option Error
  appended agent_id p d = store.append_decision s call.ended_append (record_of agent_id p d)

  -- The workflow service is asked only for an ALLOW whose record was accepted.
  evaluated-cases :
      (agent_id : String) (p : AgentProposal) (d : Decision)
      → ((evaluated agent_id p d).0.1 ≡ w)
        ⊎ ((d.verdict ≡ Verdict.allow)
            × ((appended agent_id p d).1 ≡ none)
            × ((evaluated agent_id p d).0.1
                ≡ (starter.execute_workflow w call.ended_start
                    (start_options sha256_hex json store starter policy task_queue p)
                    (request_of agent_id p)).0))
  unfolding after_evaluate
  evaluated-cases agent_id p d = ground arith

  evaluated-store :
      (agent_id : String) (p : AgentProposal) (d : Decision)
      → (evaluated agent_id p d).0.0 ≡ (appended agent_id p d).0
  unfolding after_evaluate
  evaluated-store agent_id p d = refl

  abbrev decoded : Result (ℕ × String) AgentProposal
  decoded = decode_proposal json (acquire_proposal call.envelope) call.body

  decoded-cases :
      (agent_id : String) (p : AgentProposal)
      → agent_id_from_context call.agent_id ≡ some agent_id
      → decoded ≡ ok p
      → (answer.0.1 ≡ w) ⊎ (answer ≡ evaluated agent_id p (evaluate policy agent_id p))
  unfolding intercept after_decode evaluate_throttled
  decoded-cases agent_id p a e =
      rw (intercept, a, e)
        (elim (Bool-cases call.ended_evaluate) [
          | inl ended ↦ inl (ground (arith, ended))
          | inr live ↦ elim (Wait-cases call.wait) [
            | inl free ↦ inr (ground (arith, live, free))
            | inr done ↦ inl (ground (arith, live, done))
          ]
        ])

  answer-cases :
      (answer.0.1 ≡ w)
      ⊎ ((agent_id : String) × (p : AgentProposal) × (agent_id_from_context call.agent_id
            ≡ some agent_id)
          × (answer ≡ evaluated agent_id p (evaluate policy agent_id p)))
  unfolding intercept
  answer-cases = elim (Option-cases (agent_id_from_context call.agent_id)) [
    | inl a ↦ inl (ground (arith, a))
    | inr (agent_id, a) ↦ elim (Result-cases decoded) [
      | inr (e, d) ↦ inl (ground (arith, a, d))
      | inl (p, d) ↦ elim (decoded-cases agent_id p a d) [
        | inl kept ↦ inl kept
        | inr same ↦ inr (agent_id, p, a, same)
      ]
    ]
  ]

  -- Over a decision store that keeps its promise, with a new decision ID and a clock before the year
  -- 10000, intercept leaves the workflow service alone or asks it for one workflow, as an error if one
  -- with its ID is running: that of the authenticated agent and of a proposal that the policy allows,
  -- for which the record stored under the request's decision ID passes VerifyIngress with the ID that
  -- the workflow is started under.
  pub intercept-Starts :
      IsSound s
      → call.decision_id ≢ ""
      → call.now < year_10000
      → recorded s call.decision_id ≡ none
      → (answer.0.1 ≡ w) ⊎ Starts
  unfolding execution_request ingress_record start_options
  intercept-Starts sound named early fresh = elim answer-cases [
    | inl kept ↦ inl kept
    | inr (agent_id, p, a, same) ↦
        let d = evaluate policy agent_id p in
        elim (evaluated-cases agent_id p d) [
          | inl kept ↦ inl (ap (λ x. x.0.1) same ∙ kept)
          | inr (allowed, accepted, asked) ↦
              let (r, found, kept) =
                laws.append_new s call.ended_append (record_of agent_id p d) sound early fresh
                  accepted in
              inr (record {
                request = request_of agent_id p;
                options = start_options sha256_hex json store starter policy task_queue p;
                asked = ap (λ x. x.0.1) same ∙ asked;
                exclusive = refl;
                authenticated = ((agent_id_from_context_iff call.agent_id agent_id).0 a).0;
                identified = ((agent_id_from_context_iff call.agent_id agent_id).0 a).1;
                allowed = allowed;
                backing = r;
                found =
                    ap (λ x. recorded x.0.0 call.decision_id) same
                    ∙ ap (λ x. recorded x call.decision_id) (evaluated-store agent_id p d)
                    ∙ found;
                verified = verified agent_id p d r named allowed kept;
              })
        ]
  ]
