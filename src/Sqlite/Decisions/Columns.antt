-- ===== src/Sqlite/Decisions/Columns.antt =====
-- The columns of a decision record: what is scanned from them, and what inserting them does.
use sentry_gate_ai.Prelude.{refl, eq_iff, String, ◌≡◌, ◌<◌, ◌⊎◌, ℕ, true, some, arith}
use sentry_gate_ai.Prelude.Assoc.{lookup, lookup-insert_self}
use sentry_gate_ai.Contracts.{
  ok, year_10000, DecisionRecord, DecisionStage, Verdict, stage_text, verdict_text, record_equal,
  equal_laws,
}
use sentry_gate_ai.Sqlite.Database.{Tables, DecisionRow, apply, insert_decision}
use sentry_gate_ai.Sqlite.Rows.{
  Codec, scan_decision, decision_row, read_stage, read_verdict, parse_time, format_time,
}

stage_text-read : (s : String) → stage_text (read_stage s) ≡ s
unfolding read_stage
stage_text-read s = ground (arith, eq_iff s "INGRESS", eq_iff s "WORKFLOW_REVALIDATION")

verdict_text-read : (s : String) → verdict_text (read_verdict s) ≡ s
unfolding read_verdict
verdict_text-read s = ground (arith, eq_iff s "ALLOW", eq_iff s "DENY", eq_iff s "REQUIRE_APPROVAL")

-- The columns of a record are scanned as an equal record.
pub scan-decision_row :
    (codec : Codec) (rec : DecisionRecord) (reasons : String)
    → rec.recorded_at < year_10000
    → codec.marshal rec.reasons ≡ ok reasons
    → (r : DecisionRecord) × (scan_decision codec rec.decision_id (decision_row codec rec reasons)
        ≡ ok r)
      × (record_equal r rec ≡ true)
      × (rec.stage ≡ DecisionStage.ingress → r.stage ≡ DecisionStage.ingress)
      × (rec.verdict ≡ Verdict.allow → r.verdict ≡ Verdict.allow)
unfolding read_stage read_verdict scan_decision decision_row format_time parse_time record_equal
scan-decision_row codec rec reasons early h = (
  record rec {
    stage = read_stage (stage_text rec.stage);
    verdict = read_verdict (verdict_text rec.verdict);
  },
  ground (
    arith,
    codec.unmarshal-marshal rec.reasons reasons h,
    codec.parse-format rec.recorded_at early,
  ),
  rw (stage_text-read, verdict_text-read) (simp equal_laws (ground arith)),
  λ e. rw e refl,
  λ e. rw e refl,
)

pub insert_decision-cases :
    (id : String) (row : DecisionRow) (t t' : Tables) (n : ℕ)
    → apply (insert_decision id row) t ≡ some (t', n)
    → ((n ≡ 1) × (lookup id t'.decision_records ≡ some row)) ⊎ ((n ≡ 0) × (t' ≡ t))
unfolding apply
insert_decision-cases id row t t' n h = ground (arith, lookup-insert_self id row t.decision_records)
