-- ===== src/Sqlite/Rows.antt =====
-- internal/audit/sqlite.go and claims.go: how claims, decision records and audit rows are written to
-- columns and scanned from them. The time format of Go's package time and JSON of encoding/json are
-- the parameter `Codec`. A reason is one of the program's codes.
mod Texts
unfoldable pub use Texts.*
use sentry_gate_ai.Prelude.{String, ◌≡◌, ◌<◌, List, Option, none, some, refl}
use sentry_gate_ai.Contracts.{
  Error, text, wrap, Result, ok, err, Time, year_10000, ExecutionClaim, DecisionRecord, stage_text,
  verdict_text, ReasonCode, AuditRecord, phase_text, audit_verdict_text,
}
use sentry_gate_ai.Sqlite.Database.{ClaimRow, DecisionRow, AuditRow}

-- `t.Format(time.RFC3339Nano)`, `time.Parse`, `json.Marshal` and `json.Unmarshal` of reason codes;
-- what `Marshal` writes is read back, and what `Format` writes for a year of four digits.
pub record Codec : Type 0 where
  pub format : Time → String
  pub parse : String → Option Time
  pub marshal : List ReasonCode → Result Error String
  pub unmarshal : String → Result Error (List ReasonCode)
  pub parse-format : (t : Time) → t < year_10000 → parse (format t) ≡ some t
  pub unmarshal-marshal :
      (reasons : List ReasonCode) (s : String) → marshal reasons ≡ ok s → unmarshal s ≡ ok reasons

module _ (codec : Codec) where
  -- `formatTime`; a time is in UTC.
  unfoldable pub format_time : Time → String
  format_time t = codec.format t

  -- `parseTime`
  unfoldable pub parse_time : String → Result Error Time
  parse_time s = elim (codec.parse s) [
    | none ↦ err (text "stored timestamp is not RFC 3339")
    | some t ↦ ok t
  ]

  abbrev claim_at : String → ClaimRow → Time → Time → ExecutionClaim
  claim_at id r claimed updated = record {
    decision_id = id;
    owner = record { workflow_id = r.workflow_id; run_id = r.run_id; token = r.claim_token };
    state = read_claim_state r.state;
    claimed_at = claimed;
    updated_at = updated;
  }

  -- The scan of `GetClaim`
  unfoldable pub scan_claim : String → ClaimRow → Result Error ExecutionClaim
  unfolding parse_time read_claim_state
  scan_claim id r = elim (parse_time r.claimed_at) [
    | err e ↦ err e
    | ok claimed ↦ elim (parse_time r.updated_at) [
      | err e ↦ err e
      | ok updated ↦ ok (claim_at id r claimed updated)
    ]
  ]

  time_or_zero : Option Time → Time
  time_or_zero none = 0
  time_or_zero (some t) = t

  -- The time that is read back for one that was written
  unfoldable pub stamp : Time → Time
  unfolding time_or_zero
  stamp t = time_or_zero (codec.parse (codec.format t))

  pub stamp_readable : (t : Time) → t < year_10000 → stamp t ≡ t
  unfolding stamp time_or_zero
  stamp_readable t h = rw (codec.parse-format t h) refl

  -- A row as a claim, where a time that cannot be read is the zero time.
  unfoldable pub claim_of_row : String → ClaimRow → ExecutionClaim
  unfolding time_or_zero read_claim_state
  claim_of_row id r =
      claim_at id r (time_or_zero (codec.parse r.claimed_at))
        (time_or_zero (codec.parse r.updated_at))

  -- The columns that `AppendDecision` writes
  unfoldable pub decision_row : DecisionRecord → String → DecisionRow
  unfolding format_time
  decision_row r reasons = record {
    stage = stage_text r.stage;
    proposal_id = r.proposal_id;
    agent_id = r.agent_id;
    request_hash = r.request_hash;
    command = r.command;
    target_id = r.target_id;
    environment = r.environment;
    verdict = verdict_text r.verdict;
    reasons = reasons;
    policy_version = r.policy_version;
    policy_digest = r.policy_digest;
    workflow_id = r.workflow_id;
    trace_id = r.trace_id;
    recorded_at = format_time r.recorded_at;
  }

  abbrev decision_at : String → DecisionRow → List ReasonCode → Time → DecisionRecord
  decision_at id r reasons recorded = record {
    decision_id = id;
    stage = read_stage r.stage;
    proposal_id = r.proposal_id;
    agent_id = r.agent_id;
    request_hash = r.request_hash;
    command = r.command;
    target_id = r.target_id;
    environment = r.environment;
    verdict = read_verdict r.verdict;
    reasons = reasons;
    policy_version = r.policy_version;
    policy_digest = r.policy_digest;
    workflow_id = r.workflow_id;
    trace_id = r.trace_id;
    recorded_at = recorded;
  }

  -- `scanDecision`
  unfoldable pub scan_decision : String → DecisionRow → Result Error DecisionRecord
  unfolding parse_time read_stage read_verdict
  scan_decision id r = elim (codec.unmarshal r.reasons) [
    | err e ↦ err (wrap "decode reasons: " e "")
    | ok reasons ↦ elim (parse_time r.recorded_at) [
      | err e ↦ err e
      | ok recorded ↦ ok (decision_at id r reasons recorded)
    ]
  ]

  -- The columns that `Append` writes
  unfoldable pub audit_row : AuditRecord → AuditRow
  unfolding format_time
  audit_row r = record {
    proposal_id = r.proposal_id;
    workflow_id = r.workflow_id;
    run_id = r.run_id;
    phase = phase_text r.phase;
    verdict = audit_verdict_text r.verdict;
    target_id = r.target_id;
    command = r.command;
    detail = r.detail;
    recorded_at = format_time r.recorded_at;
  }

  abbrev audit_at : String → AuditRow → Time → AuditRecord
  audit_at id r recorded = record {
    record_id = id;
    proposal_id = r.proposal_id;
    workflow_id = r.workflow_id;
    run_id = r.run_id;
    phase = read_phase r.phase;
    verdict = read_audit_verdict r.verdict;
    target_id = r.target_id;
    command = r.command;
    detail = r.detail;
    recorded_at = recorded;
  }

  -- `scanAudit`
  unfoldable pub scan_audit : String → AuditRow → Result Error AuditRecord
  unfolding parse_time read_phase read_audit_verdict
  scan_audit id r = elim (parse_time r.recorded_at) [
    | err e ↦ err e
    | ok recorded ↦ ok (audit_at id r recorded)
  ]
