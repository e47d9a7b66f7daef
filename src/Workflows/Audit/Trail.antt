-- ===== src/Workflows/Audit/Trail.antt =====
-- The audit table: what `ListByProposal` returns after any writes.
use sentry_gate_ai.Workflows.Audit.{
  append, list_by_proposal, MemoryAuditStore, new_memory_audit_store, indices, stamped, rows_at,
}
use sentry_gate_ai.Contracts.{Time, ctx_err, phase_text, ok, AuditRecord, Result-cases}
use sentry_gate_ai.Prelude.Lists.{length, get_elem?-append_last, get_elem?, get_elem?-append_left}
use sentry_gate_ai.Prelude.Assoc.{insert, lookup, lookup-insert}
use sentry_gate_ai.Prelude.{
  Bool, false, true, sym, ap, ◌∙◌, ◌==◌, eq_iff, inl, inr, Bool-cases, if◌then◌else◌, subst, ◌||◌,
  ◌⊎◌, String, ℕ, List, [], ◌∷◌, ◌++◌, some, ◌≡◌, refl, arith, Option-cases,
}

-- The rows of a proposal, in the order of the table.
unfoldable pub rows_of : String → List AuditRecord → List AuditRecord
rows_of proposal_id [] = []
rows_of proposal_id (r ∷ rs) =
    let rest = rows_of proposal_id rs in if r.proposal_id == proposal_id then r ∷ rest else rest

-- The index lists exactly the rows of each proposal.
pub record IsTrail (s : MemoryAuditStore) : Type 0 where
  pub listed :
      (id : String) → rows_at s.records (indices (lookup id s.by_prop)) ≡ ok (rows_of id s.records)

rows_at-append :
    (records more : List AuditRecord) (is : List ℕ) (rows : List AuditRecord)
    → rows_at records is ≡ ok rows
    → rows_at (records ++ more) is ≡ ok rows
unfolding rows_at
rows_at-append records more [] rows e = e
rows_at-append records more (i ∷ is) rows e = elim (Option-cases (get_elem? records i)) [
  | inl p ↦ absurd (ground (arith, p))
  | inr (r, p) ↦ elim (Result-cases (rows_at records is)) [
    | inl (rs, q) ↦
        ground (
          arith,
          p,
          q,
          get_elem?-append_left records more i r p,
          rows_at-append records more is rs q,
        )
    | inr (x, q) ↦ absurd (ground (arith, p, q))
  ]
]

rows_at-snoc :
    (records : List AuditRecord) (is : List ℕ) (i : ℕ) (rows : List AuditRecord) (r : AuditRecord)
    → rows_at records is ≡ ok rows
    → get_elem? records i ≡ some r
    → rows_at records (is ++ i ∷ []) ≡ ok (rows ++ r ∷ [])
unfolding rows_at
rows_at-snoc records [] i rows r e at = ground (arith, at)
rows_at-snoc records (j ∷ is) i rows r e at = elim (Option-cases (get_elem? records j)) [
  | inl p ↦ absurd (ground (arith, p))
  | inr (x, p) ↦ elim (Result-cases (rows_at records is)) [
    | inl (rs, q) ↦ ground (arith, p, q, rows_at-snoc records is i rs r q at)
    | inr (y, q) ↦ absurd (ground (arith, p, q))
  ]
]

rows_of-snoc :
    (id : String) (rs : List AuditRecord) (r : AuditRecord)
    → rows_of id (rs ++ r ∷ [])
      ≡ (if r.proposal_id == id then rows_of id rs ++ r ∷ [] else rows_of id rs)
unfolding rows_of
rows_of-snoc id [] r = ground arith
rows_of-snoc id (x ∷ rs) r = ground (arith, rows_of-snoc id rs r)

stamped-proposal : (at : Time) (r : AuditRecord) → (stamped at r).proposal_id ≡ r.proposal_id
unfolding stamped
stamped-proposal at r = ground arith

new_memory_audit_store-IsTrail : IsTrail new_memory_audit_store
unfolding lookup rows_at rows_of
new_memory_audit_store-IsTrail = record { listed = λ id. refl }

-- One call of `Append`: whether the context has ended, the time, and the row.
pub record Write : Type 0 where
  pub ended : Bool
  pub at : Time
  pub row : AuditRecord

unfoldable pub write_all : MemoryAuditStore → List Write → MemoryAuditStore
write_all s [] = s
write_all s (w ∷ ws) = write_all (append s w.ended w.at w.row).0 ws

-- A row without an ID, a proposal or a phase is refused.
abbrev pub is_incomplete : AuditRecord → Bool
is_incomplete r = r.record_id == "" || r.proposal_id == "" || phase_text r.phase == ""

-- The rows that the table must hold, in the order of the writes.
unfoldable pub accepted : List Write → List AuditRecord
accepted [] = []
accepted (w ∷ ws) =
    let rest = accepted ws in
    if w.ended || is_incomplete w.row then rest else stamped w.at w.row ∷ rest

appended : MemoryAuditStore → Time → AuditRecord → MemoryAuditStore
appended s at rec = record {
  records = s.records ++ stamped at rec ∷ [];
  by_prop =
      insert rec.proposal_id (indices (lookup rec.proposal_id s.by_prop) ++ length s.records ∷ [])
        s.by_prop;
}

-- A write adds its row, or is refused and changes nothing.
write_cases :
    (s : MemoryAuditStore) (w : Write)
    → (((w.ended || is_incomplete w.row) ≡ true) × ((append s w.ended w.at w.row).0 ≡ s))
      ⊎ (((w.ended || is_incomplete w.row) ≡ false)
          × ((append s w.ended w.at w.row).0 ≡ appended s w.at w.row))
unfolding append appended ctx_err
write_cases s w = ground arith

appended-IsTrail :
    (s : MemoryAuditStore) (at : Time) (rec : AuditRecord) → IsTrail s → IsTrail (appended s at rec)
unfolding appended
appended-IsTrail s at rec v = record {
  listed = λ id.
      let row = stamped at rec in
      let found =
        lookup-insert rec.proposal_id id
          (indices (lookup rec.proposal_id s.by_prop) ++ length s.records ∷ []) s.by_prop in
      let rows = rows_of-snoc id s.records row in
      let kept = rows_at-append s.records (row ∷ []) in
      elim (Bool-cases (rec.proposal_id == id)) [
        | inl same ↦
            let named = (eq_iff rec.proposal_id id).0 same in
            ground (
              arith,
              same,
              named,
              found,
              rows,
              stamped-proposal at rec,
              rows_at-snoc (s.records ++ row ∷ []) (indices (lookup id s.by_prop))
                  (length s.records) (rows_of id s.records) row (kept _ _ (v.listed id))
                  (get_elem?-append_last s.records row),
            )
        | inr other ↦
            ground (arith, other, found, rows, stamped-proposal at rec, kept _ _ (v.listed id))
      ];
}

-- `Append` keeps the index exact.
append-IsTrail :
    (s : MemoryAuditStore) (w : Write) → IsTrail s → IsTrail (append s w.ended w.at w.row).0
append-IsTrail s w v = elim (write_cases s w) [
  | inl (_, same) ↦ subst IsTrail (sym same) v
  | inr (_, new) ↦ subst IsTrail (sym new) (appended-IsTrail s w.at w.row v)
]

write_all-IsTrail : (s : MemoryAuditStore) (ws : List Write) → IsTrail s → IsTrail (write_all s ws)
unfolding write_all
write_all-IsTrail s [] v = v
write_all-IsTrail s (w ∷ ws) v =
    write_all-IsTrail (append s w.ended w.at w.row).0 ws (append-IsTrail s w v)

snoc-append :
    (xs : List AuditRecord) (x : AuditRecord) (ys : List AuditRecord)
    → (xs ++ x ∷ []) ++ ys ≡ xs ++ x ∷ ys
snoc-append [] x ys = refl
snoc-append (y ∷ xs) x ys = cc (snoc-append xs x ys)

append-nil : (xs : List AuditRecord) → xs ++ [] ≡ xs
append-nil [] = refl
append-nil (x ∷ xs) = cc (append-nil xs)

records-append :
    (s : MemoryAuditStore) (w : Write) (ws : List Write)
    → (append s w.ended w.at w.row).0.records ++ accepted ws ≡ s.records ++ accepted (w ∷ ws)
unfolding accepted appended
records-append s w ws = elim (write_cases s w) [
  | inl (refused, same) ↦ rw refused (ap (λ (x : MemoryAuditStore). x.records ++ accepted ws) same)
  | inr (taken, new) ↦ rw taken (
      ap (λ (x : MemoryAuditStore). x.records ++ accepted ws) new
      ∙ snoc-append s.records (stamped w.at w.row) (accepted ws))
]

records-write_all :
    (s : MemoryAuditStore) (ws : List Write) → (write_all s ws).records ≡ s.records ++ accepted ws
unfolding write_all accepted
records-write_all s [] = sym (append-nil s.records)
records-write_all s (w ∷ ws) =
    records-write_all (append s w.ended w.at w.row).0 ws ∙ records-append s w ws

-- After any writes to a new audit table, `ListByProposal` returns exactly the accepted rows of the
-- proposal, each with its time set, in the order in which they were written.
pub list_by_proposal-write_all :
    (ws : List Write) (id : String)
    → list_by_proposal (write_all new_memory_audit_store ws) false id
      ≡ ok (rows_of id (accepted ws))
unfolding list_by_proposal ctx_err
list_by_proposal-write_all ws id =
    (write_all-IsTrail new_memory_audit_store ws new_memory_audit_store-IsTrail).listed id
    ∙ ap (λ (rs : List AuditRecord). ok (rows_of id rs))
        (records-write_all new_memory_audit_store ws)
