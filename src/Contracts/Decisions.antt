-- ===== src/Contracts/Decisions.antt =====
-- shared/contracts/decision.go: verdicts, reason codes, decisions and the workflow's input. The Go
-- string types are data types; `other s` stands for a text `s` that is none of the constants, the
-- zero value `""` included.
use sentry_gate_ai.Prelude.{ℕ, String, Bool, List}
use sentry_gate_ai.Contracts.Proposal.{AgentProposal}

pub data Verdict : Type 0 where
  allow deny require_approval : Verdict
  other : String → Verdict

abbrev pub verdict_text : Verdict → String
verdict_text Verdict.allow = "ALLOW"
verdict_text Verdict.deny = "DENY"
verdict_text Verdict.require_approval = "REQUIRE_APPROVAL"
verdict_text (Verdict.other s) = s

pub data DecisionStage : Type 0 where
  ingress workflow_revalidation : DecisionStage
  other : String → DecisionStage

abbrev pub stage_text : DecisionStage → String
stage_text DecisionStage.ingress = "INGRESS"
stage_text DecisionStage.workflow_revalidation = "WORKFLOW_REVALIDATION"
stage_text (DecisionStage.other s) = s

-- `unset` is the zero value `""`.
pub data ReasonCode : Type 0 where
  agent_unknown command_unknown command_not_permitted target_unregistered : ReasonCode
  target_protected environment_denied approval_required environment_allowed : ReasonCode
  policy_unavailable request_hash_mismatch : ReasonCode
  decision_not_found decision_wrong_stage decision_not_allow : ReasonCode
  agent_mismatch hash_mismatch identity_mismatch already_claimed : ReasonCode
  unset : ReasonCode

abbrev pub reason_number : ReasonCode → ℕ
reason_number ReasonCode.agent_unknown = 0
reason_number ReasonCode.command_unknown = 1
reason_number ReasonCode.command_not_permitted = 2
reason_number ReasonCode.target_unregistered = 3
reason_number ReasonCode.target_protected = 4
reason_number ReasonCode.environment_denied = 5
reason_number ReasonCode.approval_required = 6
reason_number ReasonCode.environment_allowed = 7
reason_number ReasonCode.policy_unavailable = 8
reason_number ReasonCode.request_hash_mismatch = 9
reason_number ReasonCode.decision_not_found = 10
reason_number ReasonCode.decision_wrong_stage = 11
reason_number ReasonCode.decision_not_allow = 12
reason_number ReasonCode.agent_mismatch = 13
reason_number ReasonCode.hash_mismatch = 14
reason_number ReasonCode.identity_mismatch = 15
reason_number ReasonCode.already_claimed = 16
reason_number ReasonCode.unset = 17

abbrev pub reason_text : ReasonCode → String
reason_text ReasonCode.agent_unknown = "AGENT_UNKNOWN"
reason_text ReasonCode.command_unknown = "COMMAND_UNKNOWN"
reason_text ReasonCode.command_not_permitted = "COMMAND_NOT_PERMITTED_FOR_AGENT"
reason_text ReasonCode.target_unregistered = "TARGET_UNREGISTERED"
reason_text ReasonCode.target_protected = "TARGET_PROTECTED"
reason_text ReasonCode.environment_denied = "ENVIRONMENT_DENIED"
reason_text ReasonCode.approval_required = "APPROVAL_REQUIRED"
reason_text ReasonCode.environment_allowed = "ENVIRONMENT_ALLOWED"
reason_text ReasonCode.policy_unavailable = "POLICY_UNAVAILABLE"
reason_text ReasonCode.request_hash_mismatch = "REQUEST_HASH_MISMATCH"
reason_text ReasonCode.decision_not_found = "INGRESS_DECISION_NOT_FOUND"
reason_text ReasonCode.decision_wrong_stage = "INGRESS_DECISION_WRONG_STAGE"
reason_text ReasonCode.decision_not_allow = "INGRESS_DECISION_NOT_ALLOW"
reason_text ReasonCode.agent_mismatch = "INGRESS_DECISION_AGENT_MISMATCH"
reason_text ReasonCode.hash_mismatch = "INGRESS_DECISION_HASH_MISMATCH"
reason_text ReasonCode.identity_mismatch = "INGRESS_DECISION_IDENTITY_MISMATCH"
reason_text ReasonCode.already_claimed = "INGRESS_DECISION_ALREADY_CLAIMED"
reason_text ReasonCode.unset = ""

pub record Decision : Type 0 where
  pub verdict : Verdict
  pub reasons : List ReasonCode
  pub environment : String
  pub policy_version : String
  pub policy_digest : String

pub record ExecutionRequest : Type 0 where
  pub agent_id : String
  pub proposal : AgentProposal
  pub ingress_decision_id : String
  pub request_hash : String

pub record IngressVerification : Type 0 where
  pub valid : Bool
  pub reason : ReasonCode
  pub detail : String
