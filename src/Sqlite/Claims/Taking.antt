-- ===== src/Sqlite/Claims/Taking.antt =====
-- `ClaimExecution` and `GetClaim` of the SQLite store, over every driver that keeps `DriverLaws`.
use sentry_gate_ai.Prelude.{
  refl, sym, eq_refl, eq_iff, String, ◌≡◌, ◌≢◌, ◌⊎◌, ℕ, Bool, not, ◌||◌, ◌==◌, Option, none, some,
  arith, Bool-cases, nat_eq, inl, inr,
}
use sentry_gate_ai.Contracts.{
  Error, Result, ok, err, Time, ClaimState, ClaimOwner, ExecutionClaim, owner_eq_iff, owner_valid,
  is_claimed,
}
use sentry_gate_ai.Decision.Claim.Contract.{Claims, IsFree, fresh_claim}
use sentry_gate_ai.Sqlite.Database.{Tables, ClaimRow, Driver, DriverLaws, Statement, insert_claim}
use sentry_gate_ai.Sqlite.Rows.{Codec, stamp, claim_of_row, scan_claim, parse_time, format_time}
use sentry_gate_ai.Sqlite.Claims.{
  claim_execution, get_claim, after_insert, report_existing, scanned,
}
use sentry_gate_ai.Sqlite.Claims.Effects.{
  claim_in, with_claim, fresh_row, claim_in-with_claim, claim_of_row-fresh, insert_claim-cases,
}

scan_claim-claim_of_row :
    (codec : Codec) (id : String) (r : ClaimRow) (c : ExecutionClaim)
    → scan_claim codec id r ≡ ok c
    → claim_of_row codec id r ≡ c
unfolding scan_claim claim_of_row parse_time
scan_claim-claim_of_row codec id r c h = ground arith

module _ {D : Type 0} (db : Driver D) (codec : Codec) (tables : D → Tables)
    (laws : DriverLaws D db tables) where
  -- The claim on a decision.
  unfoldable pub sqlite_claim_of : D → String → Option ExecutionClaim
  sqlite_claim_of d id = claim_in codec (tables d) id

  scanned-ok :
      (id : String) (r : Result Error (Option ClaimRow)) (c : ExecutionClaim)
      → scanned db codec id r ≡ ok c
      → (row : ClaimRow) × (r ≡ ok (some row)) × (claim_of_row codec id row ≡ c)
  unfolding scanned
  scanned-ok id (err e) c h = absurd (ground arith)
  scanned-ok id (ok none) c h = absurd (ground arith)
  scanned-ok id (ok (some row)) c h = (row, refl, scan_claim-claim_of_row codec id row c h)

  pub get_done :
      (d : D) (ended : Bool) (id : String) (c : ExecutionClaim)
      → get_claim db codec d ended id ≡ ok c
      → sqlite_claim_of d id ≡ some c
  unfolding get_claim sqlite_claim_of claim_in
  get_done d ended id c h =
      let (row, read, same) = scanned-ok id (db.query_claim d ended id) c h in
      rw (sym (laws.claim_read d ended id (some row) read), same) refl

  module _ (d : D) (ended : Bool) (id : String) (owner : ClaimOwner) (at : Time) where
    insertion : Statement
    insertion =
        insert_claim id owner.workflow_id owner.run_id owner.token (codec.format at)
          (codec.format at)

    -- `ClaimExecution` takes a free decision, or changes nothing, whatever it reports.
    claim_whole :
        let d' = (claim_execution db codec d ended id owner at).0 in
        (tables d' ≡ tables d)
        ⊎ (IsFree (sqlite_claim_of d id)
            × (tables d' ≡ with_claim (tables d) id (fresh_row codec id owner at)))
    unfolding claim_execution format_time sqlite_claim_of insertion
    claim_whole = elim (Bool-cases (id == "" || not (owner_valid owner))) [
      | inl e ↦ rw e (inl refl)
      | inr e ↦ rw e (elim (laws.exec_whole d ended insertion) [
        | inl same ↦ inl same
        | inr (n, p) ↦ elim (insert_claim-cases codec id owner at (tables d) _ n p) [
          | inl (free, _, t) ↦ inr (free, t)
          | inr (_, t) ↦ inl t
        ]
      ])
    ]

    pub claim_own :
        let d' = (claim_execution db codec d ended id owner at).0 in
        (sqlite_claim_of d' id ≡ sqlite_claim_of d id)
        ⊎ Claims id owner (stamp codec at) (sqlite_claim_of d id) (sqlite_claim_of d' id)
    unfolding sqlite_claim_of
    claim_own = elim claim_whole [
      | inl same ↦ inl (rw same refl)
      | inr (free, t) ↦ inr (record {
        free = free;
        taken = rw (t, claim_in-with_claim, claim_of_row-fresh codec id owner at, eq_refl id) refl;
      })
    ]

    pub claim_other :
        (other : String)
        → id ≢ other
        → sqlite_claim_of (claim_execution db codec d ended id owner at).0 other
          ≡ sqlite_claim_of d other
    unfolding sqlite_claim_of
    claim_other other h = elim claim_whole [
      | inl same ↦ rw same refl
      | inr (free, t) ↦ rw t (
          ground (
            arith,
            claim_in-with_claim codec (tables d) id (fresh_row codec id owner at) other,
            eq_iff id other,
          ))
    ]

    -- When `ClaimExecution` reports success.
    report-none :
        (r : Result Error ExecutionClaim)
        → report_existing db codec owner r ≡ none
        → (c : ExecutionClaim) × (r ≡ ok c) × (c.owner ≡ owner) × (c.state ≡ ClaimState.claimed)
    unfolding report_existing
    report-none (err e) h = absurd (ground arith)
    report-none (ok c) h =
        (c, refl, ground (arith, owner_eq_iff c.owner owner), ground (arith, is_claimed c.state))

    after_insert-none :
        (d' : D) (r : Result Error (Result Error ℕ))
        → after_insert db codec d' ended id owner r ≡ none
        → (r ≡ ok (ok 1))
          ⊎ ((c : ExecutionClaim) × (get_claim db codec d' ended id ≡ ok c)
              × (c.owner ≡ owner)
              × (c.state ≡ ClaimState.claimed))
    unfolding after_insert
    after_insert-none d' (err e) h = absurd (ground arith)
    after_insert-none d' (ok (err e)) h = absurd (ground arith)
    after_insert-none d' (ok (ok n)) h = elim (Bool-cases (nat_eq n 1)) [
      | inl one ↦ inl (ground arith)
      | inr more ↦ inr (report-none (get_claim db codec d' ended id) (ground arith))
    ]

    -- The driver's answer when `ClaimExecution` succeeds.
    claim-none :
        (claim_execution db codec d ended id owner at).1 ≡ none
        → let d' = (db.exec d ended insertion).0 in
          ((claim_execution db codec d ended id owner at).0 ≡ d')
          × (after_insert db codec d' ended id owner (db.exec d ended insertion).1 ≡ none)
    unfolding claim_execution insertion format_time
    claim-none h = ground arith

    pub claim_done :
        (claim_execution db codec d ended id owner at).1 ≡ none
        → (c : ExecutionClaim) × (sqlite_claim_of
              (claim_execution db codec d ended id owner at).0
              id
            ≡ some c)
          × (c.owner ≡ owner)
          × (c.state ≡ ClaimState.claimed)
    unfolding sqlite_claim_of insertion
    claim_done h =
        let (e, a) = claim-none h in
        rw e
          (elim (after_insert-none (db.exec d ended insertion).0 (db.exec d ended insertion).1 a) [
            | inl one ↦
                elim (insert_claim-cases codec id owner at (tables d) _ 1
                  (laws.exec_done d ended insertion 1 one)) [
                    | inl (free, _, t) ↦ (
                      fresh_claim id owner (stamp codec at),
                      rw (t, claim_in-with_claim, claim_of_row-fresh codec id owner at, eq_refl id)
                          refl,
                      refl,
                      refl,
                    )
                    | inr (zero, _) ↦ absurd (ground arith)
                  ]
            | inr (c, read, owned, claimed) ↦ (
              c,
              unfold sqlite_claim_of in get_done (db.exec d ended insertion).0 ended id c read,
              owned,
              claimed,
            )
          ])
