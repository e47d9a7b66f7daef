-- ===== src/Contracts/Audit.antt =====
-- shared/contracts/audit.go: the rows of the workflow audit trail. `other s` is a text `s` that is
-- none of the constants.
use sentry_gate_ai.Prelude.{String}
use sentry_gate_ai.Contracts.Proposal.{CommandType}
use sentry_gate_ai.Contracts.Record.{Time}

pub data AuditPhase : Type 0 where
  revalidation execution_fence dispatch reconciliation compensation : AuditPhase
  workflow_complete workflow_failed : AuditPhase
  other : String → AuditPhase

abbrev pub phase_text : AuditPhase → String
phase_text AuditPhase.revalidation = "WORKFLOW_REVALIDATION"
phase_text AuditPhase.execution_fence = "EXECUTION_FENCE"
phase_text AuditPhase.dispatch = "DISPATCH_CONFIG"
phase_text AuditPhase.reconciliation = "DISPATCH_RECONCILIATION"
phase_text AuditPhase.compensation = "COMPENSATION_ROLLBACK"
phase_text AuditPhase.workflow_complete = "WORKFLOW_COMPLETE"
phase_text AuditPhase.workflow_failed = "WORKFLOW_FAILED"
phase_text (AuditPhase.other s) = s

pub data AuditVerdict : Type 0 where
  pass fail unknown : AuditVerdict
  other : String → AuditVerdict

abbrev pub audit_verdict_text : AuditVerdict → String
audit_verdict_text AuditVerdict.pass = "PASS"
audit_verdict_text AuditVerdict.fail = "FAIL"
audit_verdict_text AuditVerdict.unknown = "UNKNOWN"
audit_verdict_text (AuditVerdict.other s) = s

pub record AuditRecord : Type 0 where
  pub record_id : String
  pub proposal_id : String
  pub workflow_id : String
  pub run_id : String
  pub phase : AuditPhase
  pub verdict : AuditVerdict
  pub target_id : String
  pub command : CommandType
  pub detail : String
  pub recorded_at : Time
