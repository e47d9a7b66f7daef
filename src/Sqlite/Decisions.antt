-- ===== src/Sqlite/Decisions.antt =====
-- internal/audit/sqlite.go: `AppendDecision`, `GetDecision` and `ListDecisionsByProposal` over the
-- driver.
pub mod Columns
pub mod Stored
use sentry_gate_ai.Prelude.{
  String, ℕ, Bool, List, [], ◌∷◌, Option, none, some, nat_eq, if◌then◌else◌,
}
use sentry_gate_ai.Contracts.{
  Error, sentinel, wrap, decision_not_found, decision_conflict, Result, ok, err, DecisionRecord,
  validate, record_equal,
}
use sentry_gate_ai.Sqlite.Database.{Driver, DecisionRow, Rows, insert_decision}
use sentry_gate_ai.Sqlite.Rows.{Codec, scan_decision, decision_row}

module _ {D : Type 0} (db : Driver D) (codec : Codec) where
  -- `scanDecision` of a queried row, in `AppendDecision`: a row that is not there is an error.
  existing_decision :
      String → Result Error (Option DecisionRow) → Error → Result Error DecisionRecord
  existing_decision id (err e) no_rows = err e
  existing_decision id (ok none) no_rows = err no_rows
  existing_decision id (ok (some row)) no_rows = scan_decision codec id row

  -- How `AppendDecision` answers when the ID is taken.
  compare_existing : DecisionRecord → Result Error DecisionRecord → Option Error
  unfolding record_equal
  compare_existing rec (err e) = some (wrap "read existing decision: " e "")
  compare_existing rec (ok r) =
      if record_equal r rec then none else some (sentinel decision_conflict)

  -- `AppendDecision` after its statement
  after_append : D → Bool → Error → DecisionRecord → Result Error (Result Error ℕ) → Option Error
  unfolding compare_existing existing_decision
  after_append d ended no_rows rec (err e) = some (wrap "insert decision: " e "")
  after_append d ended no_rows rec (ok (err e)) = some e
  after_append d ended no_rows rec (ok (ok n)) =
      if nat_eq n 1
      then none
      else compare_existing rec
          (existing_decision rec.decision_id (db.query_decision d ended rec.decision_id) no_rows)

  append_encoded : D → Bool → Error → DecisionRecord → String → D × Option Error
  unfolding after_append decision_row
  append_encoded d ended no_rows rec reasons =
      let (d', r) =
        db.exec d ended (insert_decision rec.decision_id (decision_row codec rec reasons)) in
      (d', after_append d' ended no_rows rec r)

  -- `AppendDecision`, with `sql.ErrNoRows`
  unfoldable pub append_decision : D → Bool → Error → DecisionRecord → D × Option Error
  unfolding append_encoded
  append_decision d ended no_rows rec = elim (validate rec) [
    | some e ↦ (d, some e)
    | none ↦ elim (codec.marshal rec.reasons) [
      | err e ↦ (d, some e)
      | ok reasons ↦ append_encoded d ended no_rows rec reasons
    ]
  ]

  or_wrapped : String → Result Error DecisionRecord → Result Error DecisionRecord
  or_wrapped prefix (err e) = err (wrap prefix e "")
  or_wrapped prefix (ok r) = ok r

  found_decision : String → Result Error (Option DecisionRow) → Result Error DecisionRecord
  unfolding or_wrapped
  found_decision id (err e) = err (wrap "read decision: " e "")
  found_decision id (ok none) = err (sentinel decision_not_found)
  found_decision id (ok (some row)) = or_wrapped "read decision: " (scan_decision codec id row)

  -- `GetDecision`
  unfoldable pub get_decision : D → Bool → String → Result Error DecisionRecord
  unfolding found_decision
  get_decision d ended id = found_decision id (db.query_decision d ended id)

  -- The loop over the rows, with the error of `rows.Err`
  scan_decisions : List (String × DecisionRow) → Option Error → Result Error (List DecisionRecord)
  scan_decisions [] (some e) = err e
  scan_decisions [] none = ok []
  scan_decisions ((id, row) ∷ rows) last =
      let rest = scan_decisions rows last in
      elim (scan_decision codec id row) [
        | err e ↦ err e
        | ok r ↦ elim rest [ err e ↦ err e | ok rs ↦ ok (r ∷ rs) ]
      ]

  listed_decisions : Result Error (Rows DecisionRow) → Result Error (List DecisionRecord)
  unfolding scan_decisions
  listed_decisions (err e) = err e
  listed_decisions (ok (rows, last)) = scan_decisions rows last

  -- `ListDecisionsByProposal`
  unfoldable pub list_decisions_by_proposal : D → Bool → String → Result Error (List DecisionRecord)
  unfolding listed_decisions
  list_decisions_by_proposal d ended proposal_id =
      listed_decisions (db.query_decisions d ended proposal_id)
