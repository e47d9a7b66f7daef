-- ===== src/Server/Stores.antt =====
-- The two decision stores that the handlers run over: both keep what the ingress handler relies on.
use sentry_gate_ai.Prelude.{String, ◌≡◌, Bool, Option, none, some, arith, Option-cases, inl, inr}
use sentry_gate_ai.Prelude.Assoc.{lookup, lookup-insert_self}
use sentry_gate_ai.Prelude.Lists.{length, get_elem?, get_elem?-append_last}
use sentry_gate_ai.Contracts.{Error, DecisionRecord, record_equal_refl}
use sentry_gate_ai.Decision.Store.{MemoryStore}
use sentry_gate_ai.Decision.Store.Records.{IsIndexed}
use sentry_gate_ai.Sqlite.Database.{Tables, Driver, DriverLaws}
use sentry_gate_ai.Sqlite.Rows.{Codec}
use sentry_gate_ai.Sqlite.Decisions.Stored.{sqlite_recorded, append_new}
use sentry_gate_ai.Server.Request.{DecisionStore}
use sentry_gate_ai.Server.Contract.{IsKept, DecisionStoreLaws}
use sentry_gate_ai.Decision.Store
use sentry_gate_ai.Sqlite.Decisions

-- `MemoryStore` as a `decision.Store`
abbrev pub memory_decision_store : DecisionStore MemoryStore
memory_decision_store = record {
  append_decision = Store.append_decision;
  list_decisions_by_proposal = Store.list_decisions_by_proposal;
}

-- The SQLite store as a `decision.Store`
abbrev pub sqlite_decision_store : {D : Type 0} → Driver D → Codec → Error → DecisionStore D
sqlite_decision_store db codec no_rows = record {
  append_decision = λ d ended rec. Decisions.append_decision db codec d ended no_rows rec;
  list_decisions_by_proposal = Decisions.list_decisions_by_proposal db codec;
}

-- The decision that `MemoryStore` has under an ID
unfoldable pub memory_recorded : MemoryStore → String → Option DecisionRecord
memory_recorded m id = elim (lookup id m.by_id) [ none ↦ none | some i ↦ get_elem? m.records i ]

append_new-memory :
    (m : MemoryStore) (ended : Bool) (rec : DecisionRecord)
    → IsIndexed m
    → memory_recorded m rec.decision_id ≡ none
    → (Store.append_decision m ended rec).1 ≡ none
    → (r : DecisionRecord) × (memory_recorded (Store.append_decision m ended rec).0 rec.decision_id
        ≡ some r)
      × IsKept rec r
unfolding memory_recorded Store.append_decision
append_new-memory m ended rec v fresh h = elim (Option-cases (lookup rec.decision_id m.by_id)) [
  | inl e ↦ (
    rec,
    ground (
      arith,
      e,
      lookup-insert_self rec.decision_id (length m.records) m.by_id,
      get_elem?-append_last m.records rec,
    ),
    record { same = record_equal_refl rec; ingress = λ p. p; allow = λ p. p },
  )
  | inr (i, e) ↦
      let (r, at, _) = v.entry rec.decision_id i e in absurd (ground (arith, e, at, fresh))
]

-- `MemoryStore`, with a sound index, keeps the promise.
pub memory_decision_store-laws :
    DecisionStoreLaws MemoryStore memory_decision_store memory_recorded IsIndexed
memory_decision_store-laws = record {
  append_new = λ m ended rec v _ fresh h. append_new-memory m ended rec v fresh h;
}

-- The SQLite store keeps it over every driver that keeps its laws.
pub sqlite_decision_store-laws :
    {D : Type 0} (db : Driver D) (codec : Codec) (tables : D → Tables)
    (laws : DriverLaws D db tables) (no_rows : Error)
    → DecisionStoreLaws D
        (sqlite_decision_store db codec no_rows)
        (sqlite_recorded db codec tables laws)
        (λ d. Unit {0})
sqlite_decision_store-laws db codec tables laws no_rows = record {
  append_new = λ d ended rec sound early fresh h.
      let (r, found, same, ingress, allow) =
        append_new db codec tables laws d ended no_rows rec early fresh h in
      (r, found, record { same = same; ingress = ingress; allow = allow });
}
