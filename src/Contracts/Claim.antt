-- ===== src/Contracts/Claim.antt =====
-- shared/contracts/claim.go: the states, owners, rows and messages of execution claims.
use sentry_gate_ai.Prelude.{String, Bool, true, false, not, ◌&&◌, ◌==◌, ◌≡◌, arith, eq_iff, ◌↔◌}
use sentry_gate_ai.Contracts.Decisions.{ReasonCode}
use sentry_gate_ai.Contracts.Record.{Time}

-- `other s` is a text that is none of the six states.
pub data ClaimState : Type 0 where
  claimed executing reconciliation_required completed failed released : ClaimState
  other : String → ClaimState

abbrev pub claim_state_text : ClaimState → String
claim_state_text ClaimState.claimed = "CLAIMED"
claim_state_text ClaimState.executing = "EXECUTING"
claim_state_text ClaimState.reconciliation_required = "RECONCILIATION_REQUIRED"
claim_state_text ClaimState.completed = "COMPLETED"
claim_state_text ClaimState.failed = "FAILED"
claim_state_text ClaimState.released = "RELEASED"
claim_state_text (ClaimState.other s) = s

-- `==` on claim states
abbrev pub claim_state_eq : ClaimState → ClaimState → Bool
claim_state_eq ClaimState.claimed ClaimState.claimed = true
claim_state_eq ClaimState.executing ClaimState.executing = true
claim_state_eq ClaimState.reconciliation_required ClaimState.reconciliation_required = true
claim_state_eq ClaimState.completed ClaimState.completed = true
claim_state_eq ClaimState.failed ClaimState.failed = true
claim_state_eq ClaimState.released ClaimState.released = true
claim_state_eq (ClaimState.other s) (ClaimState.other t) = s == t
claim_state_eq _ _ = false

pub record ClaimOwner : Type 0 where
  pub workflow_id : String
  pub run_id : String
  pub token : String

-- `ClaimOwner.Valid`
unfoldable pub owner_valid : ClaimOwner → Bool
owner_valid o = not (o.workflow_id == "") && not (o.run_id == "") && not (o.token == "")

-- `==` on owners, field by field
unfoldable pub owner_eq : ClaimOwner → ClaimOwner → Bool
owner_eq a b = a.workflow_id == b.workflow_id && a.run_id == b.run_id && a.token == b.token

pub record ExecutionClaim : Type 0 where
  pub decision_id : String
  pub owner : ClaimOwner
  pub state : ClaimState
  pub claimed_at : Time
  pub updated_at : Time

pub record ClaimRequest : Type 0 where
  pub decision_id : String
  pub token : String

pub record ClaimResult : Type 0 where
  pub claimed : Bool
  pub reason : ReasonCode
  pub detail : String

pub record ClaimTransition : Type 0 where
  pub decision_id : String
  pub token : String
  pub to : ClaimState

pub owner_eq_iff : (a b : ClaimOwner) → (owner_eq a b ≡ true) ↔ (a ≡ b)
unfolding owner_eq
owner_eq_iff a b =
    ground
      (arith, eq_iff a.workflow_id b.workflow_id, eq_iff a.run_id b.run_id, eq_iff a.token b.token)

-- `==` on claim states finds CLAIMED exactly.
pub is_claimed :
    (s : ClaimState) → claim_state_eq s ClaimState.claimed ≡ true → s ≡ ClaimState.claimed
is_claimed s h = ground arith
