-- ===== src/Sqlite/Database.antt =====
-- The tables of internal/audit/sqlite.go and what its SQL statements do to them. A table is keyed by
-- its primary key, with its rows in the order of their rowid. The engine that executes the statements
-- (modernc.org/sqlite behind database/sql) is the parameter `Driver` with `DriverLaws`, which state
-- what SQLite documents: a statement takes effect as a whole or not at all, also when an error is
-- reported, and a query reads the tables.
use sentry_gate_ai.Prelude.{
  String, ◌≡◌, ◌≢◌, ◌⊎◌, ℕ, Bool, true, List, Option, none, some, ◌==◌, ◌&&◌, if◌then◌else◌,
}
use sentry_gate_ai.Prelude.Assoc.{Map, lookup, insert, has}
use sentry_gate_ai.Prelude.Lists.{any}
use sentry_gate_ai.Contracts.{Error, Sentinel, errors_is, context_canceled, Result, ok, err}

-- `execution_claims`, without its key `decision_id`
pub record ClaimRow : Type 0 where
  pub workflow_id : String
  pub run_id : String
  pub claim_token : String
  pub state : String
  pub claimed_at : String
  pub updated_at : String

-- `decision_records`, without its key `decision_id`
pub record DecisionRow : Type 0 where
  pub stage : String
  pub proposal_id : String
  pub agent_id : String
  pub request_hash : String
  pub command : String
  pub target_id : String
  pub environment : String
  pub verdict : String
  pub reasons : String
  pub policy_version : String
  pub policy_digest : String
  pub workflow_id : String
  pub trace_id : String
  pub recorded_at : String

-- `audit_records`, without its key `record_id`
pub record AuditRow : Type 0 where
  pub proposal_id : String
  pub workflow_id : String
  pub run_id : String
  pub phase : String
  pub verdict : String
  pub target_id : String
  pub command : String
  pub detail : String
  pub recorded_at : String

-- The tables that `migrate` creates
pub record Tables : Type 0 where
  pub audit_records : Map AuditRow
  pub decision_records : Map DecisionRow
  pub execution_claims : Map ClaimRow

-- The statements that the store executes, with their arguments
pub data Statement : Type 0 where
  -- INSERT INTO audit_records … ON CONFLICT(record_id) DO NOTHING
  insert_audit : String → AuditRow → Statement
  -- INSERT INTO decision_records … ON CONFLICT(decision_id) DO NOTHING
  insert_decision : String → DecisionRow → Statement
  -- INSERT INTO execution_claims … ON CONFLICT(decision_id) DO UPDATE … WHERE state = 'RELEASED',
  -- with the decision, the owner's three columns and the two times
  insert_claim : String → String → String → String → String → String → Statement
  -- UPDATE execution_claims SET state, updated_at WHERE decision_id, the owner's three columns AND
  -- state IN (…)
  update_claim : String → String → String → String → String → String → List String → Statement

claimed_row : String → String → String → String → String → ClaimRow
claimed_row workflow_id run_id token claimed_at updated_at = record {
  workflow_id = workflow_id;
  run_id = run_id;
  claim_token = token;
  state = "CLAIMED";
  claimed_at = claimed_at;
  updated_at = updated_at;
}

-- The claim statement on the row that is there. The foreign key wants the decision to be recorded.
claim_conflict : Tables → String → ClaimRow → Option ClaimRow → Option (Tables × ℕ)
unfolding has insert
claim_conflict t id row none =
    if has id t.decision_records
    then some (record t { execution_claims = insert id row t.execution_claims }, 1)
    else none
claim_conflict t id row (some r) =
    if r.state == "RELEASED"
    then some (record t { execution_claims = insert id row t.execution_claims }, 1)
    else some (t, 0)

update_found :
    Tables
    → String
    → String
    → String
    → String
    → String
    → String
    → List String
    → Option ClaimRow
    → Tables × ℕ
unfolding insert
update_found t state updated_at id workflow_id run_id token sources none = (t, 0)
update_found t state updated_at id workflow_id run_id token sources (some r) =
    if r.workflow_id == workflow_id
      && r.run_id == run_id
      && r.claim_token == token
      && any (λ s. s == r.state) sources
    then (
      record t {
        execution_claims =
            insert id (record r { state = state; updated_at = updated_at }) t.execution_claims;
      },
      1,
    )
    else (t, 0)

-- A statement's effect with the number of rows that it changed, or `none` if it breaks the foreign
-- key.
unfoldable pub apply : Statement → Tables → Option (Tables × ℕ)
unfolding claimed_row claim_conflict update_found insert has lookup
apply (insert_audit id row) t =
    if has id t.audit_records
    then some (t, 0)
    else some (record t { audit_records = insert id row t.audit_records }, 1)
apply (insert_decision id row) t =
    if has id t.decision_records
    then some (t, 0)
    else some (record t { decision_records = insert id row t.decision_records }, 1)
apply (insert_claim id workflow_id run_id token claimed_at updated_at) t =
    claim_conflict t id (claimed_row workflow_id run_id token claimed_at updated_at)
      (lookup id t.execution_claims)
apply (update_claim state updated_at id workflow_id run_id token sources) t = some (
    update_found t state updated_at id workflow_id run_id token sources
      (lookup id t.execution_claims))

-- The rows of a query that lists, and the error that `rows.Err` reports after the last one
abbrev pub Rows : Type 0 → Type 0
Rows A = List (String × A) × Option Error

-- What the store uses of the driver. The Boolean is whether the call's context has ended; a
-- statement answers with `RowsAffected`, which may fail by itself, and a query of one row with `none`
-- for `sql.ErrNoRows`.
pub record Driver (D : Type 0) : Type 0 where
  pub exec : D → Bool → Statement → D × Result Error (Result Error ℕ)
  pub query_claim : D → Bool → String → Result Error (Option ClaimRow)
  pub query_decision : D → Bool → String → Result Error (Option DecisionRow)
  pub query_audit : D → Bool → String → Result Error (Option AuditRow)
  pub query_decisions : D → Bool → String → Result Error (Rows DecisionRow)
  pub query_audits : D → Bool → String → Result Error (Rows AuditRow)

-- The driver's errors, apart from that of an ended context, wrap no sentinel of the program.
abbrev pub IsForeign : Error → Type 0
IsForeign e = (s : Sentinel) → s ≢ context_canceled → errors_is e s ≢ true

pub record DriverLaws (D : Type 0) (db : Driver D) (tables : D → Tables) : Type 0 where
  pub exec_whole :
      (d : D) (ended : Bool) (st : Statement)
      → (tables (db.exec d ended st).0 ≡ tables d)
        ⊎ ((n : ℕ) × (apply st (tables d) ≡ some (tables (db.exec d ended st).0, n)))
  pub exec_done :
      (d : D) (ended : Bool) (st : Statement) (n : ℕ)
      → (db.exec d ended st).1 ≡ ok (ok n)
      → apply st (tables d) ≡ some (tables (db.exec d ended st).0, n)
  pub exec_foreign :
      (d : D) (ended : Bool) (st : Statement) (e : Error)
      → ((db.exec d ended st).1 ≡ err e) ⊎ ((db.exec d ended st).1 ≡ ok (err e))
      → IsForeign e
  pub claim_read :
      (d : D) (ended : Bool) (id : String) (o : Option ClaimRow)
      → db.query_claim d ended id ≡ ok o
      → o ≡ lookup id (tables d).execution_claims
  pub decision_read :
      (d : D) (ended : Bool) (id : String) (o : Option DecisionRow)
      → db.query_decision d ended id ≡ ok o
      → o ≡ lookup id (tables d).decision_records
  pub audit_read :
      (d : D) (ended : Bool) (id : String) (o : Option AuditRow)
      → db.query_audit d ended id ≡ ok o
      → o ≡ lookup id (tables d).audit_records
