-- ===== src/Contracts/Record.antt =====
-- shared/contracts/decision.go: `DecisionRecord` with its `Validate` and `Equal`. A `time.Time` is
-- the number of nanoseconds since the zero time, so `IsZero` is a test against 0 and `UTC`, which
-- changes the location only, is the identity.
use sentry_gate_ai.Prelude.{
  ◌≡◌, refl, eq_refl, arith, ℕ, String, Bool, true, false, List, [], ◌∷◌, Option, none, some, ◌&&◌,
  ◌||◌, ◌==◌, nat_eq, if◌then◌else◌,
}
use sentry_gate_ai.Contracts.Errors.{Error, sentinel, invalid_decision_record}
use sentry_gate_ai.Contracts.Proposal.{CommandType}
use sentry_gate_ai.Contracts.Decisions.{
  Verdict, DecisionStage, ReasonCode, verdict_text, stage_text, reason_text,
}

-- Nanoseconds since the zero time, year 1, in UTC
abbrev pub Time : Type 0
Time = ℕ

-- The first instant whose year has five digits: 3652059 days after the zero time
abbrev pub year_10000 : Time
year_10000 = 315537897600000000000

pub record DecisionRecord : Type 0 where
  pub decision_id : String
  pub stage : DecisionStage
  pub proposal_id : String
  pub agent_id : String
  pub request_hash : String
  pub command : CommandType
  pub target_id : String
  pub environment : String
  pub verdict : Verdict
  pub reasons : List ReasonCode
  pub policy_version : String
  pub policy_digest : String
  pub workflow_id : String
  pub trace_id : String
  pub recorded_at : Time

-- `DecisionRecord.Validate`
unfoldable pub validate : DecisionRecord → Option Error
validate r =
    if r.decision_id == ""
      || stage_text r.stage == ""
      || r.proposal_id == ""
      || verdict_text r.verdict == ""
      || r.request_hash == ""
      || nat_eq r.recorded_at 0
    then some (sentinel invalid_decision_record)
    else none

-- `slices.Equal` on reason codes
unfoldable pub reasons_equal : List ReasonCode → List ReasonCode → Bool
reasons_equal [] [] = true
reasons_equal (x ∷ xs) (y ∷ ys) = reason_text x == reason_text y && reasons_equal xs ys
reasons_equal _ _ = false

-- `DecisionRecord.Equal`
unfoldable pub record_equal : DecisionRecord → DecisionRecord → Bool
unfolding reasons_equal
record_equal r o =
    r.decision_id == o.decision_id
    && stage_text r.stage == stage_text o.stage
    && r.proposal_id == o.proposal_id
    && r.agent_id == o.agent_id
    && r.request_hash == o.request_hash
    && r.command == o.command
    && r.target_id == o.target_id
    && r.environment == o.environment
    && verdict_text r.verdict == verdict_text o.verdict
    && reasons_equal r.reasons o.reasons
    && r.policy_version == o.policy_version
    && r.policy_digest == o.policy_digest
    && r.workflow_id == o.workflow_id
    && r.trace_id == o.trace_id
    && nat_eq r.recorded_at o.recorded_at

pub reasons_equal_refl : (rs : List ReasonCode) → reasons_equal rs rs ≡ true
unfolding reasons_equal
reasons_equal_refl [] = refl
reasons_equal_refl (r ∷ rs) = rw (eq_refl (reason_text r)) (reasons_equal_refl rs)

-- Comparisons of a value with itself
pub ruleset equal_laws = (eq_refl, reasons_equal_refl)

pub record_equal_refl : (r : DecisionRecord) → record_equal r r ≡ true
unfolding record_equal
record_equal_refl r = simp equal_laws (ground arith)
