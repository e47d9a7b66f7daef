-- ===== src/Decision/Store/Records.antt =====
-- The decision records of `MemoryStore`: the index is sound, appends are idempotent, and a record
-- that was accepted is read back and never changed.
use sentry_gate_ai.Prelude.{
  subst, sym, String, ℕ, ◌≡◌, ◌≢◌, ◌⊎◌, ap, Bool, true, false, [], ◌∷◌, ◌++◌, Option, none, some,
  arith, ◌==◌, eq_iff, Option-cases, Bool-cases, inl, inr,
}
use sentry_gate_ai.Prelude.Assoc.{lookup, insert, lookup-insert, lookup-insert_self}
use sentry_gate_ai.Prelude.Lists.{length, get_elem?, get_elem?-append_last, get_elem?-append_left}
use sentry_gate_ai.Contracts.{
  Error, ctx_err, index_panic, ok, err, DecisionRecord, validate, record_equal, record_equal_refl,
}
use sentry_gate_ai.Decision.Store.{MemoryStore, new_memory_store, append_decision, get_decision}

-- Every entry of the index points to a record with that decision ID.
pub record IsIndexed (m : MemoryStore) : Type 0 where
  pub entry :
      (id : String) (i : ℕ)
      → lookup id m.by_id ≡ some i
      → (r : DecisionRecord) × (get_elem? m.records i ≡ some r) × (r.decision_id ≡ id)

pub new_memory_store-IsIndexed : IsIndexed new_memory_store
unfolding lookup
new_memory_store-IsIndexed = record { entry = λ id i e. cc }

appended : MemoryStore → DecisionRecord → MemoryStore
appended m rec = record m {
  records = m.records ++ rec ∷ [];
  by_id = insert rec.decision_id (length m.records) m.by_id;
}

appended-IsIndexed :
    (m : MemoryStore) (rec : DecisionRecord) → IsIndexed m → IsIndexed (appended m rec)
unfolding appended
appended-IsIndexed m rec v = record {
  entry = λ id i e.
      let inserted = lookup-insert rec.decision_id id (length m.records) m.by_id in
      elim (Bool-cases (rec.decision_id == id)) [
        | inl same ↦
            let last : length m.records ≡ i = ground (arith, inserted) in
            (
              rec,
              rw (← last) (get_elem?-append_last m.records rec),
              ground (arith, eq_iff rec.decision_id id),
            )
        | inr other ↦
            let (r, at, named) = v.entry id i (ground (arith, inserted)) in
            (r, get_elem?-append_left m.records (rec ∷ []) i r at, named)
      ];
}

-- An append changes nothing, or adds the record at the end under a new ID.
append_cases :
    (m : MemoryStore) (ended : Bool) (rec : DecisionRecord)
    → ((append_decision m ended rec).0 ≡ m)
      ⊎ ((append_decision m ended rec ≡ (appended m rec, none))
          × (lookup rec.decision_id m.by_id ≡ none))
unfolding append_decision appended
append_cases m ended rec = ground arith

-- A record is in the store: its index entry leads to an equal record.
record IsStored (m : MemoryStore) (rec : DecisionRecord) : Type 0 where
  index : ℕ
  found : DecisionRecord
  indexed : lookup rec.decision_id m.by_id ≡ some index
  at : get_elem? m.records index ≡ some found
  equal : record_equal found rec ≡ true

appended-IsStored : (m : MemoryStore) (rec : DecisionRecord) → IsStored (appended m rec) rec
unfolding appended
appended-IsStored m rec = record {
  index = length m.records;
  found = rec;
  indexed = lookup-insert_self rec.decision_id (length m.records) m.by_id;
  at = get_elem?-append_last m.records rec;
  equal = record_equal_refl rec;
}

append-IsStored :
    (m m' : MemoryStore) (rec : DecisionRecord)
    → IsIndexed m
    → append_decision m false rec ≡ (m', none)
    → IsStored m' rec
unfolding append_decision ctx_err appended
append-IsStored m m' rec v e = elim (Option-cases (lookup rec.decision_id m.by_id)) [
  | inl new ↦
      let same : appended m rec ≡ m' = ground (arith, new) in
      subst (λ x. IsStored x rec) same (appended-IsStored m rec)
  | inr (i, old) ↦
      let (r, at, named) = v.entry rec.decision_id i old in
      let same : m ≡ m' = ground (arith, old, at) in
      subst (λ x. IsStored x rec) same
        (record { index = i; found = r; indexed = old; at = at; equal = ground (arith, old, at) })
]

append_valid_record :
    (m m' : MemoryStore) (rec : DecisionRecord)
    → append_decision m false rec ≡ (m', none)
    → validate rec ≡ none
unfolding append_decision ctx_err
append_valid_record m m' rec e = ground arith

-- `AppendDecision` keeps the index sound.
pub append_decision-IsIndexed :
    (m : MemoryStore) (ended : Bool) (rec : DecisionRecord)
    → IsIndexed m
    → IsIndexed (append_decision m ended rec).0
append_decision-IsIndexed m ended rec v = elim (append_cases m ended rec) [
  | inl same ↦ subst IsIndexed (sym same) v
  | inr (new, _) ↦
      subst IsIndexed (sym (ap (λ (x : MemoryStore × Option Error). x.0) new))
        (appended-IsIndexed m rec v)
]

-- An accepted record is read back under its ID, equal to the one that was written.
pub get-append_self :
    (m m' : MemoryStore) (rec : DecisionRecord)
    → IsIndexed m
    → append_decision m false rec ≡ (m', none)
    → (r : DecisionRecord) × (get_decision m' false rec.decision_id ≡ ok r)
      × (record_equal r rec ≡ true)
unfolding get_decision ctx_err
get-append_self m m' rec v e =
    let s = append-IsStored m m' rec v e in (s.found, ground (arith, s.indexed, s.at), s.equal)

-- Appending an accepted record again is accepted and changes nothing.
pub append_twice :
    (m m' : MemoryStore) (rec : DecisionRecord)
    → IsIndexed m
    → append_decision m false rec ≡ (m', none)
    → append_decision m' false rec ≡ (m', none)
unfolding append_decision ctx_err
append_twice m m' rec v e =
    let s = append-IsStored m m' rec v e in
    ground (arith, append_valid_record m m' rec e, s.indexed, s.at, s.equal)

get-appended :
    (m : MemoryStore) (rec : DecisionRecord) (id : String) (r : DecisionRecord)
    → lookup rec.decision_id m.by_id ≡ none
    → get_decision m false id ≡ ok r
    → get_decision (appended m rec) false id ≡ ok r
unfolding get_decision ctx_err appended
get-appended m rec id r fresh e = elim (Option-cases (lookup id m.by_id)) [
  | inl missing ↦ absurd (ground (arith, missing))
  | inr (i, old) ↦ ground (
    arith,
    old,
    fresh,
    eq_iff rec.decision_id id,
    lookup-insert rec.decision_id id (length m.records) m.by_id,
    get_elem?-append_left m.records (rec ∷ []) i r,
  )
]

-- What was read before an append is read after it: no record is changed or lost.
get-append_stable :
    (m : MemoryStore) (ended : Bool) (rec : DecisionRecord) (id : String) (r : DecisionRecord)
    → get_decision m false id ≡ ok r
    → get_decision (append_decision m ended rec).0 false id ≡ ok r
get-append_stable m ended rec id r e = elim (append_cases m ended rec) [
  | inl same ↦ rw same e
  | inr (new, fresh) ↦ rw new (get-appended m rec id r fresh e)
]

-- With a sound index neither method indexes out of range.
pub no_index_panic :
    (m : MemoryStore) (ended : Bool) (rec : DecisionRecord) (id : String)
    → IsIndexed m
    → ((append_decision m ended rec).1 ≢ some index_panic)
      × (get_decision m ended id ≢ err index_panic)
unfolding append_decision get_decision ctx_err validate
no_index_panic m ended rec id v = (
  λ e. elim (Option-cases (lookup rec.decision_id m.by_id)) [
    | inl new ↦ ground (arith, new)
    | inr (i, old) ↦ let (r, at, named) = v.entry rec.decision_id i old in ground (arith, old, at)
  ],
  λ e. elim (Option-cases (lookup id m.by_id)) [
    | inl new ↦ ground (arith, new)
    | inr (i, old) ↦ let (r, at, named) = v.entry id i old in ground (arith, old, at)
  ],
)
