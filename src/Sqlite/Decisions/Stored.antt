-- ===== src/Sqlite/Decisions/Stored.antt =====
-- What `AppendDecision` of the SQLite store accepts is stored, and read back.
use sentry_gate_ai.Prelude.{
  ◌≢◌, ◌<◌, ap, refl, sym, ◌∙◌, String, ◌≡◌, ◌⊎◌, ℕ, Bool, true, Option, none, some, arith,
  Bool-cases, nat_eq, inl, inr,
}
use sentry_gate_ai.Prelude.Assoc.{lookup}
use sentry_gate_ai.Contracts.{
  Error, Result, Result-cases, ok, err, DecisionRecord, DecisionStage, Verdict, record_equal,
  year_10000,
}
use sentry_gate_ai.Sqlite.Database.{
  Tables, DecisionRow, Driver, DriverLaws, Statement, insert_decision,
}
use sentry_gate_ai.Sqlite.Rows.{Codec, scan_decision, decision_row}
use sentry_gate_ai.Sqlite.Decisions.{
  append_decision, get_decision, after_append, append_encoded, existing_decision, compare_existing,
  found_decision, or_wrapped,
}
use sentry_gate_ai.Sqlite.Decisions.Columns.{scan-decision_row, insert_decision-cases}

module _ {D : Type 0} (db : Driver D) (codec : Codec) (tables : D → Tables)
    (laws : DriverLaws D db tables) where
  -- The table has a row under the record's ID that is scanned as an equal record.
  pub record IsStored (d : D) (rec : DecisionRecord) : Type 0 where
    pub row : DecisionRow
    pub present : lookup rec.decision_id (tables d).decision_records ≡ some row
    pub read : DecisionRecord
    pub scanned : scan_decision codec rec.decision_id row ≡ ok read
    pub same : record_equal read rec ≡ true

  existing-ok :
      (id : String) (q : Result Error (Option DecisionRow)) (no_rows : Error) (r : DecisionRecord)
      → existing_decision db codec id q no_rows ≡ ok r
      → (row : DecisionRow) × (q ≡ ok (some row)) × (scan_decision codec id row ≡ ok r)
  unfolding existing_decision
  existing-ok id (err e) no_rows r h = absurd (ground arith)
  existing-ok id (ok none) no_rows r h = absurd (ground arith)
  existing-ok id (ok (some row)) no_rows r h = (row, refl, h)

  compare-none :
      (rec : DecisionRecord) (q : Result Error DecisionRecord)
      → compare_existing db codec rec q ≡ none
      → (r : DecisionRecord) × (q ≡ ok r) × (record_equal r rec ≡ true)
  unfolding compare_existing
  compare-none rec (err e) h = absurd (ground arith)
  compare-none rec (ok r) h = (r, refl, ground arith)

  module _ (d : D) (ended : Bool) (no_rows : Error) (rec : DecisionRecord) where
    abbrev insertion : String → Statement
    insertion reasons = insert_decision rec.decision_id (decision_row codec rec reasons)

    append-none :
        (append_decision db codec d ended no_rows rec).1 ≡ none
        → (reasons : String) × (codec.marshal rec.reasons ≡ ok reasons)
          × ((append_decision db codec d ended no_rows rec).0
              ≡ (db.exec d ended (insertion reasons)).0)
          × (after_append db codec
                (db.exec d ended (insertion reasons)).0
                ended
                no_rows
                rec
                (db.exec d ended (insertion reasons)).1
              ≡ none)
    unfolding append_decision append_encoded
    append-none h = elim (Result-cases (codec.marshal rec.reasons)) [
      | inl (reasons, e) ↦ (reasons, e, ground (arith, e), ground (arith, e))
      | inr (x, e) ↦ absurd (ground (arith, e))
    ]

    after_append-none :
        (d' : D) (r : Result Error (Result Error ℕ))
        → after_append db codec d' ended no_rows rec r ≡ none
        → (r ≡ ok (ok 1)) ⊎ (IsStored d' rec × ((n : ℕ) × (r ≡ ok (ok n)) × (n ≢ 1)))
    unfolding after_append
    after_append-none d' (err e) h = absurd (ground arith)
    after_append-none d' (ok (err e)) h = absurd (ground arith)
    after_append-none d' (ok (ok n)) h = elim (Bool-cases (nat_eq n 1)) [
      | inl one ↦ inl (ground arith)
      | inr more ↦
          let query = db.query_decision d' ended rec.decision_id in
          let (r, q, same) =
            compare-none rec (existing_decision db codec rec.decision_id query no_rows)
              (ground arith) in
          let (row, found, scanned) = existing-ok rec.decision_id query no_rows r q in
          let stored : IsStored d' rec = record {
            row = row;
            present = sym (laws.decision_read d' ended rec.decision_id (some row) found);
            read = r;
            scanned = scanned;
            same = same;
          } in
          inr (stored, (n, refl, λ e. ground (arith, e)))
    ]

    pub append-IsStored :
        rec.recorded_at < year_10000
        → (append_decision db codec d ended no_rows rec).1 ≡ none
        → IsStored (append_decision db codec d ended no_rows rec).0 rec
    append-IsStored early h =
        let (reasons, m, e, a) = append-none h in
        rw e (elim (after_append-none _ _ a) [
          | inl one ↦
              elim (insert_decision-cases rec.decision_id (decision_row codec rec reasons)
                (tables d) _ 1 (laws.exec_done d ended (insertion reasons) 1 one)) [
                  | inl (_, present) ↦
                      let (r, scanned, same, _, _) = scan-decision_row codec rec reasons early m in
                      record {
                        row = decision_row codec rec reasons;
                        present = present;
                        read = r;
                        scanned = scanned;
                        same = same;
                      }
                  | inr (zero, _) ↦ absurd (ground arith)
                ]
          | inr (stored, _) ↦ stored
        ])

  read_row : String → Option DecisionRow → Option DecisionRecord
  unfolding scan_decision
  read_row id none = none
  read_row id (some row) = elim (scan_decision codec id row) [ err _ ↦ none | ok r ↦ some r ]

  -- The decision under an ID, if the table has a row that can be scanned.
  unfoldable pub sqlite_recorded : D → String → Option DecisionRecord
  unfolding read_row
  sqlite_recorded d id = read_row id (lookup id (tables d).decision_records)

  recorded-IsStored :
      (d : D) (rec : DecisionRecord) (v : IsStored d rec)
      → sqlite_recorded d rec.decision_id ≡ some v.read
  unfolding sqlite_recorded read_row
  recorded-IsStored d rec v = ground (arith, v.present, v.scanned)

  -- A record of a time before the year 10000 that is accepted under a new ID is recorded with its content, its stage and its verdict.
  pub append_new :
      (d : D) (ended : Bool) (no_rows : Error) (rec : DecisionRecord)
      → rec.recorded_at < year_10000
      → sqlite_recorded d rec.decision_id ≡ none
      → (append_decision db codec d ended no_rows rec).1 ≡ none
      → (r : DecisionRecord) × (sqlite_recorded
            (append_decision db codec d ended no_rows rec).0
            rec.decision_id
          ≡ some r)
        × (record_equal r rec ≡ true)
        × (rec.stage ≡ DecisionStage.ingress → r.stage ≡ DecisionStage.ingress)
        × (rec.verdict ≡ Verdict.allow → r.verdict ≡ Verdict.allow)
  unfolding sqlite_recorded read_row
  append_new d ended no_rows rec early fresh h =
      let (reasons, m, e, a) = append-none d ended no_rows rec h in
      let row = decision_row codec rec reasons in
      let st = insertion d ended no_rows rec reasons in
      rw e (elim (after_append-none d ended no_rows rec _ _ a) [
        | inl one ↦
            elim (insert_decision-cases rec.decision_id row (tables d) _ 1
              (laws.exec_done d ended st 1 one)) [
                | inl (_, present) ↦
                    let (r, scanned, same, ingress, allow) =
                      scan-decision_row codec rec reasons early m in
                    (r, ground (arith, present, scanned), same, ingress, allow)
                | inr (zero, _) ↦ absurd (ground arith)
              ]
        | inr (stored, (n, answer, more)) ↦
            elim (insert_decision-cases rec.decision_id row (tables d) _ n
              (laws.exec_done d ended st n answer)) [
                | inl (one, _) ↦ absurd (more one)
                | inr (_, same) ↦
                    let found = recorded-IsStored (db.exec d ended st).0 rec stored in
                    let before =
                      ap (λ t. read_row rec.decision_id (lookup rec.decision_id t.decision_records))
                        same in
                    absurd (ground (arith, found, before, fresh))
              ]
      ])

  -- A record of a time before the year 10000 that AppendDecision accepts, whether it was inserted now
  -- or was there, is read back by GetDecision under its ID as a record that Equal finds the same,
  -- unless the query itself fails.
  pub get-append :
      (d : D) (ended later : Bool) (no_rows : Error) (rec : DecisionRecord)
      → rec.recorded_at < year_10000
      → (append_decision db codec d ended no_rows rec).1 ≡ none
      → let d' = (append_decision db codec d ended no_rows rec).0 in
        ((r : DecisionRecord) × (get_decision db codec d' later rec.decision_id ≡ ok r)
          × (record_equal r rec ≡ true))
        ⊎ ((e : Error) × (db.query_decision d' later rec.decision_id ≡ err e))
  unfolding get_decision found_decision or_wrapped
  get-append d ended later no_rows rec early h =
      let d' = (append_decision db codec d ended no_rows rec).0 in
      let stored = append-IsStored d ended no_rows rec early h in
      elim (Result-cases (db.query_decision d' later rec.decision_id)) [
        | inl (found, q) ↦
            let present = laws.decision_read d' later rec.decision_id found q ∙ stored.present in
            inl (stored.read, rw (q, present, stored.scanned) refl, stored.same)
        | inr (e, q) ↦ inr (e, q)
      ]
