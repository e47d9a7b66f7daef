-- ===== src/Contracts/Outcome.antt =====
-- shared/contracts/outcome.go: what an adapter knows about the effect of a dispatch.
use sentry_gate_ai.Prelude.{String, Bool, false, ◌+++◌}
use sentry_gate_ai.Contracts.Proposal.{AgentProposal}

-- `other s` is a status that is none of the three, `""` included.
pub data OutcomeStatus : Type 0 where
  success failure unknown : OutcomeStatus
  other : String → OutcomeStatus

abbrev pub outcome_status_text : OutcomeStatus → String
outcome_status_text OutcomeStatus.success = "SUCCESS"
outcome_status_text OutcomeStatus.failure = "FAILURE"
outcome_status_text OutcomeStatus.unknown = "UNKNOWN"
outcome_status_text (OutcomeStatus.other s) = s

pub record DispatchOutcome : Type 0 where
  pub status : OutcomeStatus
  pub partially_applied : Bool
  pub detail : String

-- `UnknownOutcome`
unfoldable pub unknown_outcome : String → DispatchOutcome
unknown_outcome detail = record {
  status = OutcomeStatus.unknown;
  partially_applied = false;
  detail = detail;
}

checked_status : OutcomeStatus → DispatchOutcome → DispatchOutcome
unfolding unknown_outcome
checked_status OutcomeStatus.success o = record o { partially_applied = false }
checked_status OutcomeStatus.unknown o = record o { partially_applied = false }
checked_status OutcomeStatus.failure o = o
checked_status (OutcomeStatus.other s) o =
    unknown_outcome ("adapter reported unrecognised status " +++ s +++ ": " +++ o.detail)

-- `DispatchOutcome.Checked`
unfoldable pub checked : DispatchOutcome → DispatchOutcome
unfolding checked_status
checked o = checked_status o.status o

pub record DispatchRequest : Type 0 where
  pub idempotency_key : String
  pub proposal : AgentProposal

pub record FencedDispatch : Type 0 where
  pub decision_id : String
  pub token : String
  pub dispatch : DispatchRequest
