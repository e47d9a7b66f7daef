-- ===== src/Sqlite/Claims/Working.antt =====
-- When the driver works for the calls about a decision, and what `GetClaim` answers then.
use sentry_gate_ai.Prelude.{
  refl, ap, ◌∙◌, String, ◌≡◌, ℕ, Bool, true, Option, none, some, arith, Option-cases, inl, inr,
  contains_text,
}
use sentry_gate_ai.Prelude.Assoc.{has, lookup}
use sentry_gate_ai.Contracts.{
  Error, error_text, sentinel, ok, err, Time, ExecutionClaim, claim_not_found,
}
use sentry_gate_ai.Sqlite.Database.{Tables, ClaimRow, Driver, DriverLaws, Statement, apply}
use sentry_gate_ai.Sqlite.Rows.{Codec, claim_of_row, scan_claim, parse_time}
use sentry_gate_ai.Sqlite.Claims.{get_claim, scanned}
use sentry_gate_ai.Sqlite.Claims.Effects.{claim_in}
use sentry_gate_ai.Sqlite.Claims.Taking.{sqlite_claim_of}

-- Both times of a row can be read.
abbrev pub IsReadable : Codec → ClaimRow → Type 0
IsReadable codec r =
    ((t : Time) × (codec.parse r.claimed_at ≡ some t))
    × ((u : Time) × (codec.parse r.updated_at ≡ some u))

pub scan-readable :
    (codec : Codec) (id : String) (r : ClaimRow)
    → IsReadable codec r
    → scan_claim codec id r ≡ ok (claim_of_row codec id r)
unfolding scan_claim claim_of_row parse_time
scan-readable codec id r ((t, claimed), (u, updated)) = ground (arith, claimed, updated)

module _ {D : Type 0} (db : Driver D) (codec : Codec) (tables : D → Tables)
    (laws : DriverLaws D db tables) where
  -- The driver works for the calls about a decision: statements and queries are answered, a broken
  -- foreign key with SQLite's message, and the times of the claim that is there can be read.
  pub record IsAnswering (d : D) (ended : Bool) (id : String) : Type 0 where
    pub executes :
        (st : Statement) (t : Tables) (n : ℕ)
        → apply st (tables d) ≡ some (t, n)
        → (db.exec d ended st).1 ≡ ok (ok n)
    pub refuses :
        (st : Statement)
        → apply st (tables d) ≡ none
        → (e : Error) × ((db.exec d ended st).1 ≡ err e)
          × (contains_text (error_text e) "FOREIGN KEY constraint failed" ≡ true)
    pub reads : db.query_claim d ended id ≡ ok (lookup id (tables d).execution_claims)
    pub reads_after :
        (st : Statement)
        → let d' = (db.exec d ended st).0 in
          db.query_claim d' ended id ≡ ok (lookup id (tables d').execution_claims)
    pub readable :
        (r : ClaimRow) → lookup id (tables d).execution_claims ≡ some r → IsReadable codec r

  abbrev pub IsKnown : D → String → Type 0
  IsKnown d id = has id (tables d).decision_records ≡ true

  abbrev claim_of : D → String → Option ExecutionClaim
  claim_of = sqlite_claim_of db codec tables laws

  pub claim_of-row :
      (d : D) (id : String) (c : ExecutionClaim)
      → claim_of d id ≡ some c
      → (r : ClaimRow) × (lookup id (tables d).execution_claims ≡ some r)
        × (claim_of_row codec id r ≡ c)
  unfolding sqlite_claim_of claim_in
  claim_of-row d id c h = elim (Option-cases (lookup id (tables d).execution_claims)) [
    | inl e ↦ absurd (ground (arith, e))
    | inr (r, e) ↦ (r, e, ground (arith, e))
  ]

  pub claim_of-none :
      (d : D) (id : String) → claim_of d id ≡ none → lookup id (tables d).execution_claims ≡ none
  unfolding sqlite_claim_of claim_in
  claim_of-none d id h = elim (Option-cases (lookup id (tables d).execution_claims)) [
    | inl e ↦ e
    | inr (r, e) ↦ absurd (ground (arith, e))
  ]

  pub finds :
      (d : D) (ended : Bool) (id : String) (c : ExecutionClaim)
      → IsAnswering d ended id
      → claim_of d id ≡ some c
      → get_claim db codec d ended id ≡ ok c
  unfolding get_claim scanned
  finds d ended id c v h =
      let (r, row, same) = claim_of-row d id c h in
      rw (v.reads, row) (scan-readable codec id r (v.readable r row) ∙ ap (λ x. ok x) same)

  pub misses :
      (d : D) (ended : Bool) (id : String)
      → IsAnswering d ended id
      → claim_of d id ≡ none
      → get_claim db codec d ended id ≡ err (sentinel claim_not_found)
  unfolding get_claim scanned
  misses d ended id v h = rw (v.reads, claim_of-none d id h) refl
