-- ===== src/Sqlite/Trail.antt =====
-- internal/audit/sqlite.go: `Append` and `ListByProposal` of workflow audit rows over the driver.
use sentry_gate_ai.Prelude.{
  String, ℕ, Bool, not, ◌&&◌, ◌||◌, ◌==◌, List, [], ◌∷◌, Option, none, some, nat_eq, ◌+++◌,
  if◌then◌else◌,
}
use sentry_gate_ai.Contracts.{
  Error, sentinel, wrap, error_text, audit_persist_failed, Result, ok, err, Time, AuditRecord,
  phase_text, audit_verdict_text,
}
use sentry_gate_ai.Workflows.Audit.{stamped}
use sentry_gate_ai.Sqlite.Database.{Driver, AuditRow, Rows, insert_audit}
use sentry_gate_ai.Sqlite.Rows.{Codec, scan_audit, audit_row}

-- `==` on audit rows whose times were set to zero
unfoldable pub audit_same : AuditRecord → AuditRecord → Bool
audit_same a b =
    a.record_id == b.record_id
    && a.proposal_id == b.proposal_id
    && a.workflow_id == b.workflow_id
    && a.run_id == b.run_id
    && phase_text a.phase == phase_text b.phase
    && audit_verdict_text a.verdict == audit_verdict_text b.verdict
    && a.target_id == b.target_id
    && a.command == b.command
    && a.detail == b.detail

persist_failed : Error → Error
persist_failed e = wrap "" (sentinel audit_persist_failed) (": " +++ error_text e)

module _ {D : Type 0} (db : Driver D) (codec : Codec) where
  -- `auditByID`
  audit_by_id : String → Result Error (Option AuditRow) → Error → Result Error AuditRecord
  audit_by_id id (err e) no_rows = err e
  audit_by_id id (ok none) no_rows = err no_rows
  audit_by_id id (ok (some row)) no_rows = scan_audit codec id row

  -- How `Append` answers when the record ID is taken.
  compare_audit : AuditRecord → Result Error AuditRecord → Option Error
  unfolding persist_failed error_text audit_same
  compare_audit rec (err e) = some (persist_failed e)
  compare_audit rec (ok r) =
      if not (nat_eq r.recorded_at rec.recorded_at) || not (audit_same r rec)
      then some (
          wrap "" (sentinel audit_persist_failed)
            (": record " +++ rec.record_id +++ " already exists with different content"))
      else none

  -- `Append` after its statement
  after_audit : D → Bool → Error → AuditRecord → Result Error (Result Error ℕ) → Option Error
  unfolding compare_audit audit_by_id persist_failed error_text
  after_audit d ended no_rows rec (err e) = some (persist_failed e)
  after_audit d ended no_rows rec (ok (err e)) = some e
  after_audit d ended no_rows rec (ok (ok n)) =
      if nat_eq n 1
      then none
      else compare_audit rec
          (audit_by_id rec.record_id (db.query_audit d ended rec.record_id) no_rows)

  append_stamped : D → Bool → Error → AuditRecord → D × Option Error
  unfolding after_audit audit_row
  append_stamped d ended no_rows rec =
      let (d', r) = db.exec d ended (insert_audit rec.record_id (audit_row codec rec)) in
      (d', after_audit d' ended no_rows rec r)

  -- `Append`, with `sql.ErrNoRows` and the time that `time.Now()` reads
  unfoldable pub append : D → Bool → Error → Time → AuditRecord → D × Option Error
  unfolding append_stamped stamped
  append d ended no_rows at rec =
      if rec.record_id == "" || rec.proposal_id == "" || phase_text rec.phase == ""
      then (d, some (sentinel audit_persist_failed))
      else append_stamped d ended no_rows (stamped at rec)

  -- The loop over the rows, with the error of `rows.Err`
  scan_audits : List (String × AuditRow) → Option Error → Result Error (List AuditRecord)
  scan_audits [] (some e) = err e
  scan_audits [] none = ok []
  scan_audits ((id, row) ∷ rows) last =
      let rest = scan_audits rows last in
      elim (scan_audit codec id row) [
        | err e ↦ err e
        | ok r ↦ elim rest [ err e ↦ err e | ok rs ↦ ok (r ∷ rs) ]
      ]

  listed_audits : Result Error (Rows AuditRow) → Result Error (List AuditRecord)
  unfolding scan_audits
  listed_audits (err e) = err e
  listed_audits (ok (rows, last)) = scan_audits rows last

  -- `ListByProposal`
  unfoldable pub list_by_proposal : D → Bool → String → Result Error (List AuditRecord)
  unfolding listed_audits
  list_by_proposal d ended proposal_id = listed_audits (db.query_audits d ended proposal_id)
