-- ===== src/Workflows/Audit.antt =====
-- workflows/audit.go: the in-memory audit table, the activity that writes it and the rows that the
-- workflow makes. The mutex makes each method one step; `at` is what `time.Now()` reads.
pub mod Trail
use sentry_gate_ai.Prelude.{
  String, ℕ, zero, suc, ◌/◌, ◌%◌, Bool, List, [], ◌∷◌, ◌++◌, Option, none, some, ◌==◌, ◌||◌, ◌+++◌,
  ltb, nat_eq, if◌then◌else◌,
}
use sentry_gate_ai.Prelude.Assoc.{Map, lookup, insert}
use sentry_gate_ai.Prelude.Lists.{length, get_elem?}
use sentry_gate_ai.Contracts.{
  Error, sentinel, audit_persist_failed, index_panic, ctx_err, Result, ok, err, Time, AgentProposal,
  AuditPhase, phase_text, AuditVerdict, AuditRecord,
}

pub record MemoryAuditStore : Type 0 where
  pub records : List AuditRecord
  pub by_prop : Map (List ℕ)

-- `NewMemoryAuditStore`
abbrev pub new_memory_audit_store : MemoryAuditStore
new_memory_audit_store = record { records = []; by_prop = [] }

abbrev pub indices : Option (List ℕ) → List ℕ
indices none = []
indices (some l) = l

-- A row without a time gets the current one.
unfoldable pub stamped : Time → AuditRecord → AuditRecord
stamped at rec = if nat_eq rec.recorded_at 0 then record rec { recorded_at = at } else rec

-- `Append`
unfoldable pub append :
    MemoryAuditStore → Bool → Time → AuditRecord → MemoryAuditStore × Option Error
unfolding stamped lookup insert
append s ended at rec = elim (ctx_err ended) [
  | some e ↦ (s, some e)
  | none ↦
      if rec.record_id == "" || rec.proposal_id == "" || phase_text rec.phase == ""
      then (s, some (sentinel audit_persist_failed))
      else (
        record {
          records = s.records ++ stamped at rec ∷ [];
          by_prop =
              insert rec.proposal_id
                (indices (lookup rec.proposal_id s.by_prop) ++ length s.records ∷ []) s.by_prop;
        },
        none,
      )
]

-- The rows at the indices.
unfoldable pub rows_at : List AuditRecord → List ℕ → Result Error (List AuditRecord)
rows_at records [] = ok []
rows_at records (i ∷ is) =
    let rest = rows_at records is in
    elim (get_elem? records i) [
      | none ↦ err index_panic
      | some r ↦ elim rest [ ok rs ↦ ok (r ∷ rs) | err e ↦ err e ]
    ]

-- `ListByProposal`
unfoldable pub list_by_proposal : MemoryAuditStore → Bool → String → Result Error (List AuditRecord)
unfolding rows_at lookup
list_by_proposal s ended proposal_id = elim (ctx_err ended) [
  | some e ↦ err e
  | none ↦ rows_at s.records (indices (lookup proposal_id s.by_prop))
]

-- `RecordAuditTrail`; a nil store is `none`.
unfoldable pub record_audit_trail :
    Option MemoryAuditStore → Bool → Time → AuditRecord → Option MemoryAuditStore × Option Error
unfolding append
record_audit_trail none ended at rec = (none, some (sentinel audit_persist_failed))
record_audit_trail (some s) ended at rec = let (s', e) = append s ended at rec in (some s', e)

digit : ℕ → String
digit n =
    if nat_eq n 0
    then "0"
    else if nat_eq n 1
    then "1"
    else if nat_eq n 2
    then "2"
    else if nat_eq n 3
    then "3"
    else if nat_eq n 4
    then "4"
    else if nat_eq n 5
    then "5"
    else if nat_eq n 6
    then "6"
    else if nat_eq n 7
    then "7"
    else if nat_eq n 8
    then "8"
    else "9"

decimal_with : ℕ → ℕ → String
unfolding digit
decimal_with zero n = ""
decimal_with (suc fuel) n =
    let higher = decimal_with fuel (n / 10) in
    if ltb n 10 then digit n else higher +++ digit (n % 10)

-- `%d` of a number; it has at most as many digits as its value plus one.
unfoldable pub decimal : ℕ → String
unfolding decimal_with
decimal n = decimal_with (suc n) n

-- `newAuditRecord`
unfoldable pub new_audit_record :
    String → String → AuditPhase → AuditVerdict → AgentProposal → String → Time → ℕ → AuditRecord
unfolding decimal
new_audit_record workflow_id run_id phase verdict prop detail at seq = record {
  record_id = prop.id +++ "-" +++ run_id +++ "-" +++ phase_text phase +++ "-" +++ decimal seq;
  proposal_id = prop.id;
  workflow_id = workflow_id;
  run_id = run_id;
  phase = phase;
  verdict = verdict;
  target_id = prop.target_id;
  command = prop.type;
  detail = detail;
  recorded_at = at;
}
