-- ===== src/Sqlite/Rows/Texts.antt =====
-- internal/audit/sqlite.go and claims.go: the conversions of scanned texts to the program's constants.
use sentry_gate_ai.Prelude.{String, ◌==◌, if◌then◌else◌}
use sentry_gate_ai.Contracts.{ClaimState, DecisionStage, Verdict, AuditPhase, AuditVerdict}

-- `contracts.ClaimState(state)`
unfoldable pub read_claim_state : String → ClaimState
read_claim_state s =
    if s == "CLAIMED"
    then ClaimState.claimed
    else if s == "EXECUTING"
    then ClaimState.executing
    else if s == "RECONCILIATION_REQUIRED"
    then ClaimState.reconciliation_required
    else if s == "COMPLETED"
    then ClaimState.completed
    else if s == "FAILED"
    then ClaimState.failed
    else if s == "RELEASED"
    then ClaimState.released
    else ClaimState.other s

-- `contracts.DecisionStage(stage)`
unfoldable pub read_stage : String → DecisionStage
read_stage s =
    if s == "INGRESS"
    then DecisionStage.ingress
    else if s == "WORKFLOW_REVALIDATION"
    then DecisionStage.workflow_revalidation
    else DecisionStage.other s

-- `contracts.Verdict(verdict)`
unfoldable pub read_verdict : String → Verdict
read_verdict s =
    if s == "ALLOW"
    then Verdict.allow
    else if s == "DENY"
    then Verdict.deny
    else if s == "REQUIRE_APPROVAL"
    then Verdict.require_approval
    else Verdict.other s

-- `contracts.AuditPhase(phase)`
unfoldable pub read_phase : String → AuditPhase
read_phase s =
    if s == "WORKFLOW_REVALIDATION"
    then AuditPhase.revalidation
    else if s == "EXECUTION_FENCE"
    then AuditPhase.execution_fence
    else if s == "DISPATCH_CONFIG"
    then AuditPhase.dispatch
    else if s == "DISPATCH_RECONCILIATION"
    then AuditPhase.reconciliation
    else if s == "COMPENSATION_ROLLBACK"
    then AuditPhase.compensation
    else if s == "WORKFLOW_COMPLETE"
    then AuditPhase.workflow_complete
    else if s == "WORKFLOW_FAILED"
    then AuditPhase.workflow_failed
    else AuditPhase.other s

-- `contracts.AuditVerdict(verdict)`
unfoldable pub read_audit_verdict : String → AuditVerdict
read_audit_verdict s =
    if s == "PASS"
    then AuditVerdict.pass
    else if s == "FAIL"
    then AuditVerdict.fail
    else if s == "UNKNOWN"
    then AuditVerdict.unknown
    else AuditVerdict.other s
