-- ===== src/Decision/Ingress/Binding.antt =====
-- What a successful ingress check establishes, and which reason each failure carries.
use sentry_gate_ai.Prelude.{
  refl, ◌⊎◌, String, ℕ, List, ◌≡◌, ◌≢◌, ◌↔◌, true, none, some, arith, ◌==◌, eq_iff,
}
use sentry_gate_ai.Contracts.{
  Error, Result, ok, err, DecisionRecord, DecisionStage, Verdict, ExecutionRequest, ReasonCode,
}
use sentry_gate_ai.Decision.Hash.{request_hash}
use sentry_gate_ai.Decision.Ingress.{verify_ingress, check_ingress, ingress_reason}

-- `rec` is the ingress ALLOW of exactly this execution.
pub record IsBacking (sha256_hex : List ℕ → String) (rec : DecisionRecord) (req : ExecutionRequest)
    (workflow_id : String) : Type 0 where
  pub named : rec.decision_id ≢ ""
  pub decision : rec.decision_id ≡ req.ingress_decision_id
  pub stage : rec.stage ≡ DecisionStage.ingress
  pub verdict : rec.verdict ≡ Verdict.allow
  pub agent : rec.agent_id ≡ req.agent_id
  pub hash : rec.request_hash ≡ request_hash sha256_hex req.proposal
  pub proposal : rec.proposal_id ≡ req.proposal.id
  pub started : rec.workflow_id ≢ ""
  pub workflow : rec.workflow_id ≡ workflow_id

-- A failed verification has a reason code, and the code names the first condition that fails.
pub record IsExplained (sha256_hex : List ℕ → String) (rec : DecisionRecord)
    (req : ExecutionRequest) (workflow_id : String) (e : Error) : Type 0 where
  pub coded : ingress_reason e ≢ none
  pub not_found :
      ingress_reason e ≡ some ReasonCode.decision_not_found
      → (rec.decision_id ≡ "") ⊎ (rec.decision_id ≢ req.ingress_decision_id)
  pub wrong_stage :
      ingress_reason e ≡ some ReasonCode.decision_wrong_stage
      → (rec.decision_id ≡ req.ingress_decision_id) × (rec.stage ≢ DecisionStage.ingress)
  pub not_allow :
      ingress_reason e ≡ some ReasonCode.decision_not_allow
      → (rec.stage ≡ DecisionStage.ingress) × (rec.verdict ≢ Verdict.allow)
  pub agent :
      ingress_reason e ≡ some ReasonCode.agent_mismatch
      → (rec.verdict ≡ Verdict.allow) × (rec.agent_id ≢ req.agent_id)
  pub hash :
      ingress_reason e ≡ some ReasonCode.hash_mismatch
      → (rec.agent_id ≡ req.agent_id) × (rec.request_hash ≢ request_hash sha256_hex req.proposal)
  pub identity :
      ingress_reason e ≡ some ReasonCode.identity_mismatch
      → (rec.request_hash ≡ request_hash sha256_hex req.proposal)
        × ((rec.proposal_id ≢ req.proposal.id)
            ⊎ ((rec.workflow_id ≡ "") ⊎ (rec.workflow_id ≢ workflow_id)))

module _ (sha256_hex : List ℕ → String) (rec : DecisionRecord) (req : ExecutionRequest)
    (workflow_id : String) where
  -- What the text comparisons of `VerifyIngress` mean.
  comparisons :
      (((rec.decision_id == "") ≡ true) ↔ (rec.decision_id ≡ ""))
      × (((rec.decision_id == req.ingress_decision_id) ≡ true)
          ↔ (rec.decision_id ≡ req.ingress_decision_id))
      × (((rec.agent_id == req.agent_id) ≡ true) ↔ (rec.agent_id ≡ req.agent_id))
      × (((rec.request_hash == request_hash sha256_hex req.proposal) ≡ true)
          ↔ (rec.request_hash ≡ request_hash sha256_hex req.proposal))
      × (((rec.proposal_id == req.proposal.id) ≡ true) ↔ (rec.proposal_id ≡ req.proposal.id))
      × (((rec.workflow_id == "") ≡ true) ↔ (rec.workflow_id ≡ ""))
      × (((rec.workflow_id == workflow_id) ≡ true) ↔ (rec.workflow_id ≡ workflow_id))
  comparisons = (eq_iff _ _, eq_iff _ _, eq_iff _ _, eq_iff _ _, eq_iff _ _, eq_iff _ _, eq_iff _ _)

  -- `VerifyIngress` passes exactly the records that back the execution: a recorded ingress ALLOW
  -- with its ID, for the same agent, request hash, proposal ID and workflow.
  pub verify_ingress_iff :
      (verify_ingress sha256_hex rec req workflow_id ≡ none)
      ↔ IsBacking sha256_hex rec req workflow_id
  unfolding verify_ingress
  verify_ingress_iff = (
    λ h. record {
      named = ground (arith, comparisons);
      decision = ground (arith, comparisons);
      stage = ground arith;
      verdict = ground arith;
      agent = ground (arith, comparisons);
      hash = ground (arith, comparisons);
      proposal = ground (arith, comparisons);
      started = ground (arith, comparisons);
      workflow = ground (arith, comparisons);
    },
    λ b. ground (arith, comparisons),
  )

  -- Every failure of `VerifyIngress` is mapped to a reason code, and the code tells which condition
  -- failed while the one tested before it held.
  pub verify_ingress-IsExplained :
      (e : Error)
      → verify_ingress sha256_hex rec req workflow_id ≡ some e
      → IsExplained sha256_hex rec req workflow_id e
  unfolding verify_ingress ingress_reason
  verify_ingress-IsExplained e h = record {
    coded = ground (arith, comparisons);
    not_found = λ r. ground (arith, comparisons);
    wrong_stage = λ r. ground (arith, comparisons);
    not_allow = λ r. ground (arith, comparisons);
    agent = λ r. ground (arith, comparisons);
    hash = λ r. ground (arith, comparisons);
    identity = λ r. ground (arith, comparisons);
  }

-- `CheckIngress` passes exactly when the store has the decision that the request names and that
-- record backs the execution; a missing or unreadable record never passes.
pub check_ingress_iff :
    (sha256_hex : List ℕ → String) (loaded : Result Error DecisionRecord) (req : ExecutionRequest)
    (workflow_id : String)
    → (check_ingress sha256_hex loaded req workflow_id ≡ none)
      ↔ ((rec : DecisionRecord) × (loaded ≡ ok rec) × IsBacking sha256_hex rec req workflow_id)
unfolding check_ingress
check_ingress_iff sha256_hex (ok rec) req workflow_id = (
  λ h. (
    rec,
    refl,
    (verify_ingress_iff sha256_hex rec req workflow_id).0
        (ground (arith, eq_iff req.ingress_decision_id "")),
  ),
  λ (r, e, b). ground (
    arith,
    eq_iff req.ingress_decision_id "",
    (verify_ingress_iff sha256_hex r req workflow_id).1 b,
  ),
)
check_ingress_iff sha256_hex (err e) req workflow_id =
    (λ h. absurd (ground arith), λ (r, p, b). absurd (ground arith))
