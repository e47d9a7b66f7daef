-- ===== src/Server/Contract.antt =====
-- What the ingress handler relies on in a decision store.
use sentry_gate_ai.Prelude.{String, ◌≡◌, ◌<◌, Bool, true, Option, none, some}
use sentry_gate_ai.Contracts.{DecisionRecord, DecisionStage, Verdict, record_equal, year_10000}
use sentry_gate_ai.Server.Request.{DecisionStore}

-- What a stored record keeps of the one that was appended: `Equal` finds them the same, and the
-- program's own stage and verdict are read back as such.
pub record IsKept (rec r : DecisionRecord) : Type 0 where
  pub same : record_equal r rec ≡ true
  pub ingress : rec.stage ≡ DecisionStage.ingress → r.stage ≡ DecisionStage.ingress
  pub allow : rec.verdict ≡ Verdict.allow → r.verdict ≡ Verdict.allow

-- What a decision store promises to the handler: a record of a time before the year 10000 that
-- `AppendDecision` accepts under a new ID is recorded.
pub record DecisionStoreLaws (S : Type 0) (store : DecisionStore S)
    (recorded : S → String → Option DecisionRecord) (IsSound : S → Type 0) : Type 0 where
  pub append_new :
      (s : S) (ended : Bool) (rec : DecisionRecord)
      → IsSound s
      → rec.recorded_at < year_10000
      → recorded s rec.decision_id ≡ none
      → (store.append_decision s ended rec).1 ≡ none
      → (r : DecisionRecord) × (recorded (store.append_decision s ended rec).0 rec.decision_id
          ≡ some r)
        × IsKept rec r
