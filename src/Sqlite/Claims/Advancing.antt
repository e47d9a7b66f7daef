-- ===== src/Sqlite/Claims/Advancing.antt =====
-- How the SQLite store answers `AdvanceClaim` while the driver works.
use sentry_gate_ai.Sqlite.Claims.Working.{IsAnswering, claim_of-row}
use sentry_gate_ai.Prelude.{
  refl, ap, ◌∙◌, eq_iff, String, ◌≡◌, ℕ, Bool, true, Option, none, some, arith, Option-cases, inl,
  inr, map, List,
}
use sentry_gate_ai.Prelude.Assoc.{lookup}
use sentry_gate_ai.Contracts.{
  Error, errors_is, ok, Time, ClaimState, ClaimOwner, ExecutionClaim, claim_state_text,
  claim_not_held,
}
use sentry_gate_ai.Decision.Claim.{claim_sources, may_advance}
use sentry_gate_ai.Sqlite.Database.{
  Tables, ClaimRow, Driver, DriverLaws, Statement, apply, update_claim,
}
use sentry_gate_ai.Sqlite.Rows.{Codec, claim_of_row, format_time}
use sentry_gate_ai.Sqlite.Claims.{advance_claim, after_update}
use sentry_gate_ai.Sqlite.Claims.Effects.{with_claim, moved_row}
use sentry_gate_ai.Sqlite.Claims.States.{sources_agree}
use sentry_gate_ai.Sqlite.Claims.Taking.{sqlite_claim_of}

module _ {D : Type 0} (db : Driver D) (codec : Codec) (tables : D → Tables)
    (laws : DriverLaws D db tables) where
  abbrev claim_of : D → String → Option ExecutionClaim
  claim_of = sqlite_claim_of db codec tables laws

  module _ (d : D) (ended : Bool) (id : String) (owner : ClaimOwner) (to : ClaimState) (at : Time)
      (v : IsAnswering db codec tables laws d ended id) where
    abbrev advanced : D × Option Error
    advanced = advance_claim db codec d ended id owner to at

    abbrev update : List ClaimState → Statement
    update from =
        update_claim (claim_state_text to) (codec.format at) id owner.workflow_id owner.run_id
          owner.token (map claim_state_text from)

    updated :
        (from : List ClaimState) (t : Tables) (n : ℕ)
        → claim_sources to ≡ some from
        → apply (update from) (tables d) ≡ some (t, n)
        → advanced.1 ≡ after_update db codec (ok (ok n))
    unfolding advance_claim format_time
    updated from t n src h = rw (advance_claim, src, v.executes (update from) t n h) refl

    update-moves :
        (from : List ClaimState) (r : ClaimRow)
        → claim_sources to ≡ some from
        → lookup id (tables d).execution_claims ≡ some r
        → (claim_of_row codec id r).owner ≡ owner
        → may_advance (claim_of_row codec id r).state to ≡ true
        → apply (update from) (tables d)
          ≡ some (with_claim (tables d) id (moved_row codec id owner at to r), 1)
    unfolding apply claim_of_row with_claim moved_row
    update-moves from r src row mine permitted = ground (
      arith,
      row,
      mine,
      permitted,
      sources_agree to from r.state src,
      eq_iff r.workflow_id owner.workflow_id,
      eq_iff r.run_id owner.run_id,
      eq_iff r.claim_token owner.token,
    )

    pub advances :
        (c : ExecutionClaim)
        → claim_of d id ≡ some c
        → c.owner ≡ owner
        → may_advance c.state to ≡ true
        → advanced.1 ≡ none
    unfolding after_update may_advance
    advances c h mine permitted = elim (Option-cases (claim_sources to)) [
      | inl e ↦ absurd (ground (arith, e))
      | inr (from, e) ↦
          let (r, row, same) = claim_of-row db codec tables laws d id c h in
          updated from _ 1 e (
            update-moves from r e row (ap (λ x. x.owner) same ∙ mine)
              (ap (λ x. may_advance x.state to) same ∙ permitted))
    ]

    update-answers :
        (from : List ClaimState)
        → (t : Tables) × (n : ℕ) × (apply (update from) (tables d) ≡ some (t, n))
    unfolding apply
    update-answers from = (_, _, refl)

    pub advance_blocked : (e : Error) → advanced.1 ≡ some e → errors_is e claim_not_held ≡ true
    unfolding after_update errors_is advance_claim
    advance_blocked e h = elim (Option-cases (claim_sources to)) [
      | inl p ↦ ground (arith, p)
      | inr (from, p) ↦
          let (t, n, a) = update-answers from in
          let told = updated from t n p a in ground (arith, told)
    ]
