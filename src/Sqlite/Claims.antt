-- ===== src/Sqlite/Claims.antt =====
-- internal/audit/claims.go: `ClaimExecution`, `AdvanceClaim` and `GetClaim` over the driver.
pub mod States
pub mod Effects
pub mod Taking
pub mod Moving
pub mod Working
pub mod Answers
pub mod Advancing
pub mod Laws
use sentry_gate_ai.Prelude.{
  String, ℕ, Bool, not, ◌&&◌, ◌||◌, ◌==◌, map, Option, none, some, nat_eq, ◌+++◌, if◌then◌else◌,
  contains_text,
}
use sentry_gate_ai.Contracts.{
  Error, sentinel, wrap, text, quote, error_text, decision_not_found, claim_not_held,
  claim_not_found, Result, ok, err, Time, ClaimState, ClaimOwner, ExecutionClaim, owner_valid,
  owner_eq, claim_state_eq, claim_state_text,
}
use sentry_gate_ai.Decision.Claim.{claim_sources, claim_held_error, ClaimStore}
use sentry_gate_ai.Sqlite.Database.{Driver, ClaimRow, insert_claim, update_claim}
use sentry_gate_ai.Sqlite.Rows.{Codec, scan_claim, format_time}

module _ {D : Type 0} (db : Driver D) (codec : Codec) where
  scanned : String → Result Error (Option ClaimRow) → Result Error ExecutionClaim
  scanned id (err e) = err (wrap "read claim: " e "")
  scanned id (ok none) = err (sentinel claim_not_found)
  scanned id (ok (some row)) = scan_claim codec id row

  -- `GetClaim`
  unfoldable pub get_claim : D → Bool → String → Result Error ExecutionClaim
  unfolding scanned
  get_claim d ended id = scanned id (db.query_claim d ended id)

  -- How `ClaimExecution` reports a claim that it did not acquire.
  report_existing : ClaimOwner → Result Error ExecutionClaim → Option Error
  unfolding claim_held_error owner_eq
  report_existing owner (err e) = some (wrap "read existing claim: " e "")
  report_existing owner (ok c) =
      if owner_eq c.owner owner && claim_state_eq c.state ClaimState.claimed
      then none
      else some (claim_held_error c)

  -- `ClaimExecution` after its statement
  after_insert : D → Bool → String → ClaimOwner → Result Error (Result Error ℕ) → Option Error
  unfolding report_existing get_claim error_text
  after_insert d ended id owner (err e) =
      if contains_text (error_text e) "FOREIGN KEY constraint failed"
      then some (wrap "" (sentinel decision_not_found) (": " +++ error_text e))
      else some (wrap "claim execution: " e "")
  after_insert d ended id owner (ok (err e)) = some (wrap "claim execution: " e "")
  after_insert d ended id owner (ok (ok n)) =
      if nat_eq n 1 then none else report_existing owner (get_claim d ended id)

  -- `ClaimExecution`
  unfoldable pub claim_execution : D → Bool → String → ClaimOwner → Time → D × Option Error
  unfolding after_insert format_time
  claim_execution d ended id owner at =
      if id == "" || not (owner_valid owner)
      then (d, some (text ("invalid claim for decision " +++ quote id)))
      else (let ts = format_time codec at in
          let (d', r) =
            db.exec d ended (insert_claim id owner.workflow_id owner.run_id owner.token ts ts) in
          (d', after_insert d' ended id owner r))

  -- `AdvanceClaim` after its statement
  after_update : Result Error (Result Error ℕ) → Option Error
  after_update (err e) = some (wrap "advance claim: " e "")
  after_update (ok (err e)) = some (wrap "advance claim: " e "")
  after_update (ok (ok n)) = if nat_eq n 1 then none else some (sentinel claim_not_held)

  -- `AdvanceClaim`
  unfoldable pub advance_claim :
      D → Bool → String → ClaimOwner → ClaimState → Time → D × Option Error
  unfolding after_update claim_sources format_time
  advance_claim d ended id owner to at = elim (claim_sources to) [
    | none ↦ (
      d,
      some (
          wrap "" (sentinel claim_not_held)
            (": invalid target state " +++ quote (claim_state_text to))),
    )
    | some from ↦
        let (d', r) = db.exec d ended (
          update_claim (claim_state_text to) (format_time codec at) id owner.workflow_id
            owner.run_id owner.token (map claim_state_text from)) in
        (d', after_update r)
  ]

  -- The SQLite store as a `ClaimStore`
  abbrev pub sqlite_claim_store : ClaimStore D
  sqlite_claim_store = record {
    claim_execution = claim_execution;
    advance_claim = advance_claim;
    get_claim = get_claim;
  }
