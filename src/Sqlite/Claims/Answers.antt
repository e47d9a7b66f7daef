-- ===== src/Sqlite/Claims/Answers.antt =====
-- How the SQLite store answers `ClaimExecution` while the driver works: what its statement does to the
-- row of a decision, and what is read after it.
use sentry_gate_ai.Sqlite.Claims.Working.{
  scan-readable, IsAnswering, IsKnown, claim_of-row, claim_of-none,
}
use sentry_gate_ai.Prelude.{
  refl, sym, ap, ◌∙◌, eq_iff, String, ◌≡◌, ◌≢◌, ◌⊎◌, ◌==◌, ◌||◌, ◌+++◌, not, ℕ, Bool, true, false,
  Option, none, some, arith, Option-cases, Bool-cases, inl, inr,
}
use sentry_gate_ai.Prelude.Assoc.{lookup}
use sentry_gate_ai.Contracts.{
  Error, error_text, errors_is, sentinel, wrap, Result, ok, err, Time, ClaimState, ClaimOwner,
  ExecutionClaim, owner_valid, owner_eq_iff, is_claimed, decision_not_found, claim_held,
}
use sentry_gate_ai.Decision.Claim.{claim_held_error}
use sentry_gate_ai.Decision.Claim.Contract.{IsFree}
use sentry_gate_ai.Decision.Claim.Promises.{IsComplete, IsClaimedBy}
use sentry_gate_ai.Sqlite.Database.{
  Tables, ClaimRow, Driver, DriverLaws, IsForeign, Statement, apply, insert_claim,
}
use sentry_gate_ai.Sqlite.Rows.{Codec, claim_of_row, format_time, read_claim_state}
use sentry_gate_ai.Sqlite.Claims.{
  claim_execution, get_claim, after_insert, report_existing, scanned,
}
use sentry_gate_ai.Sqlite.Claims.Effects.{claim_in, with_claim, fresh_row, insert_claim-cases}
use sentry_gate_ai.Sqlite.Claims.States.{read_released}
use sentry_gate_ai.Sqlite.Claims.Taking.{sqlite_claim_of}

is_released : (s : String) → read_claim_state s ≡ ClaimState.released → (s == "RELEASED") ≡ true
unfolding read_claim_state
is_released s h = ground arith

not_released : (s : String) → read_claim_state s ≢ ClaimState.released → (s == "RELEASED") ≡ false
not_released s h = elim (Bool-cases (s == "RELEASED")) [
  | inl e ↦ absurd (h (read_released s e))
  | inr e ↦ e
]

module _ {D : Type 0} (db : Driver D) (codec : Codec) (tables : D → Tables)
    (laws : DriverLaws D db tables) where
  abbrev claim_of : D → String → Option ExecutionClaim
  claim_of = sqlite_claim_of db codec tables laws

  module _ (d : D) (ended : Bool) (id : String) (owner : ClaimOwner) (at : Time)
      (v : IsAnswering db codec tables laws d ended id) (complete : IsComplete id owner) where
    abbrev insertion : Statement
    insertion =
        insert_claim id owner.workflow_id owner.run_id owner.token (codec.format at)
          (codec.format at)

    abbrev claimed : D × Option Error
    claimed = claim_execution db codec d ended id owner at

    -- The answer of `ClaimExecution` is read from that of its statement.
    answered :
        claimed.1
        ≡ after_insert db codec
            (db.exec d ended insertion).0
            ended
            id
            owner
            (db.exec d ended insertion).1
    unfolding claim_execution format_time
    answered = ground (arith, complete.0, complete.1, eq_iff id "")

    after : Tables
    after = with_claim (tables d) id (fresh_row codec id owner at)

    inserted : apply insertion (tables d) ≡ some (after, 1) → claimed.1 ≡ none
    unfolding after_insert
    inserted h = answered ∙ rw (v.executes insertion after 1 h) refl

    insert-free :
        IsKnown db codec tables laws d id
        → IsFree (claim_of d id)
        → apply insertion (tables d) ≡ some (after, 1)
    unfolding sqlite_claim_of claim_in claim_of_row apply after with_claim fresh_row
    insert-free known free = elim (Option-cases (lookup id (tables d).execution_claims)) [
      | inl e ↦ rw (e, known) refl
      | inr (r, e) ↦ rw (e, is_released r.state (rw e at free)) refl
    ]

    pub claims_free : IsKnown db codec tables laws d id → IsFree (claim_of d id) → claimed.1 ≡ none
    claims_free known free = inserted (insert-free known free)

    insert-kept :
        (r : ClaimRow)
        → lookup id (tables d).execution_claims ≡ some r
        → (claim_of_row codec id r).state ≢ ClaimState.released
        → apply insertion (tables d) ≡ some (tables d, 0)
    unfolding apply claim_of_row read_claim_state
    insert-kept r row gone = rw (row, not_released r.state gone) refl

    -- Over a claim that was not given up, the statement changes nothing and the claim is read.
    kept :
        (c : ExecutionClaim)
        → claim_of d id ≡ some c
        → c.state ≢ ClaimState.released
        → claimed.1 ≡ report_existing db codec owner (ok c)
    unfolding after_insert get_claim scanned
    kept c h gone =
        let (r, row, same) = claim_of-row db codec tables laws d id c h in
        let unchanged = insert-kept r row (λ e. gone (sym (ap (λ x. x.state) same) ∙ e)) in
        let answer = v.executes insertion (tables d) 0 unchanged in
        let still = laws.exec_done d ended insertion 0 answer in
        let tables_kept : tables (db.exec d ended insertion).0 ≡ tables d =
          ground (arith, still, unchanged) in
        answered
        ∙ rw (answer, v.reads_after insertion, tables_kept, row)
            (ap (report_existing db codec owner)
              (scan-readable codec id r (v.readable r row) ∙ ap (λ x. ok x) same))

    pub claims_again :
        (c : ExecutionClaim) → claim_of d id ≡ some c → IsClaimedBy owner c → claimed.1 ≡ none
    unfolding report_existing
    claims_again c h (mine, state) =
        kept c h (λ e. ground (arith, e, state)) ∙ ground (arith, state, owner_eq_iff c.owner owner)

    pub claim_blocked :
        (c : ExecutionClaim)
        → claim_of d id ≡ some c
        → c.state ≢ ClaimState.released
        → (IsClaimedBy owner c → ⊥)
        → claimed.1 ≡ some (claim_held_error c)
    unfolding report_existing
    claim_blocked c h gone other =
        kept c h gone
        ∙ ground (
          arith,
          owner_eq_iff c.owner owner,
          is_claimed c.state,
          λ (o : c.owner ≡ owner) (p : c.state ≡ ClaimState.claimed). other (o, p),
        )

    pub claim_unknown :
        (IsKnown db codec tables laws d id → ⊥)
        → claim_of d id ≡ none
        → (e : Error) × (claimed.1 ≡ some e) × (errors_is e decision_not_found ≡ true)
    unfolding apply after_insert errors_is
    claim_unknown unknown h =
        let (e, answer, message) =
          v.refuses insertion
            (ground (arith, claim_of-none db codec tables laws d id h, unknown)) in
        (
          wrap "" (sentinel decision_not_found) (": " +++ error_text e),
          answered ∙ rw (answer, message) refl,
          refl,
        )

  module _ (d : D) (ended : Bool) (id : String) (owner : ClaimOwner) (at : Time) where
    -- `ErrClaimHeld` comes from reading the claim after a statement that changed nothing.
    after_insert-held :
        (d' : D) (r : Result Error (Result Error ℕ)) (e : Error)
        → ((x : Error) → (r ≡ err x) ⊎ (r ≡ ok (err x)) → IsForeign x)
        → after_insert db codec d' ended id owner r ≡ some e
        → errors_is e claim_held ≡ true
        → (n : ℕ) × (r ≡ ok (ok n)) × (n ≢ 1)
    unfolding after_insert errors_is
    after_insert-held d' (err x) e foreign h is =
        absurd (foreign x (inl refl) claim_held (λ p. ground (arith, p)) (ground (arith, h)))
    after_insert-held d' (ok (err x)) e foreign h is =
        absurd (foreign x (inr refl) claim_held (λ p. ground (arith, p)) (ground (arith, h)))
    after_insert-held d' (ok (ok n)) e foreign h is = (n, refl, λ one. ground (arith, one))

    pub claim_refused :
        (e : Error)
        → (claim_execution db codec d ended id owner at).1 ≡ some e
        → errors_is e claim_held ≡ true
        → claim_of (claim_execution db codec d ended id owner at).0 id ≡ claim_of d id
    unfolding claim_execution format_time sqlite_claim_of
    claim_refused e h is =
        let st =
          insert_claim id owner.workflow_id owner.run_id owner.token (codec.format at)
            (codec.format at) in
        let d' = (db.exec d ended st).0 in
        elim (Bool-cases (id == "" || not (owner_valid owner))) [
          | inl bad ↦ rw (claim_execution, bad) refl
          | inr complete ↦
              let (n, answer, more) =
                after_insert-held d' (db.exec d ended st).1 e (laws.exec_foreign d ended st)
                  (rw (claim_execution, complete) at h) is in
              elim (insert_claim-cases codec id owner at (tables d) (tables d') n
                (laws.exec_done d ended st n answer)) [
                  | inl (_, one, _) ↦ absurd (more one)
                  | inr (_, same) ↦ rw (claim_execution, complete) (rw same refl)
                ]
        ]
