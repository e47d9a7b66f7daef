-- ===== src/Sqlite/Claims/Moving.antt =====
-- `AdvanceClaim` of the SQLite store, over every driver that keeps `DriverLaws`.
use sentry_gate_ai.Prelude.{List}
use sentry_gate_ai.Prelude.{
  refl, sym, ◌∙◌, eq_refl, eq_iff, ap, String, ◌≡◌, ◌≢◌, ◌⊎◌, ℕ, Bool, true, Option, none, some,
  arith, Option-cases, inl, inr, map,
}
use sentry_gate_ai.Contracts.{
  Error, Result, ok, err, Time, ClaimState, ClaimOwner, ExecutionClaim, claim_state_text, errors_is,
  claim_not_held,
}
use sentry_gate_ai.Decision.Claim.{claim_sources, may_advance}
use sentry_gate_ai.Decision.Claim.Contract.{Advances}
use sentry_gate_ai.Sqlite.Database.{
  Tables, ClaimRow, Driver, DriverLaws, IsForeign, Statement, apply, update_claim,
}
use sentry_gate_ai.Sqlite.Rows.{Codec, stamp, claim_of_row, format_time}
use sentry_gate_ai.Sqlite.Claims.{advance_claim, after_update}
use sentry_gate_ai.Sqlite.Claims.Effects.{
  with_claim, moved_row, claim_in-with_claim, claim_of_row-moved, update_claim-cases,
}
use sentry_gate_ai.Sqlite.Claims.Taking.{sqlite_claim_of}

module _ {D : Type 0} (db : Driver D) (codec : Codec) (tables : D → Tables)
    (laws : DriverLaws D db tables) (d : D) (ended : Bool) (id : String) (owner : ClaimOwner)
    (to : ClaimState) (at : Time) where
  abbrev claim_of : D → String → Option ExecutionClaim
  claim_of = sqlite_claim_of db codec tables laws

  abbrev advanced : D × Option Error
  advanced = advance_claim db codec d ended id owner to at

  abbrev update : List ClaimState → Statement
  update from =
      update_claim (claim_state_text to) (codec.format at) id owner.workflow_id owner.run_id
        owner.token (map claim_state_text from)

  -- The claim of the owner is moved to `to`, from a state that permits it.
  abbrev Moves : ClaimRow → Type 0
  Moves r =
      (claim_of d id ≡ some (claim_of_row codec id r))
      × ((claim_of_row codec id r).owner ≡ owner)
      × (may_advance (claim_of_row codec id r).state to ≡ true)
      × (tables advanced.0 ≡ with_claim (tables d) id (moved_row codec id owner at to r))
      × ((from : List ClaimState) × (claim_sources to ≡ some from))

  -- What `AdvanceClaim` does when the target is a state that claims move to.
  advance-sources :
      (from : List ClaimState)
      → claim_sources to ≡ some from
      → (advanced.0 ≡ (db.exec d ended (update from)).0)
        × (advanced.1 ≡ after_update db codec (db.exec d ended (update from)).1)
  unfolding advance_claim format_time
  advance-sources from h = (ground (arith, h), ground (arith, h))

  advance-none : claim_sources to ≡ none → (advanced.0 ≡ d) × (advanced.1 ≢ none)
  unfolding advance_claim
  advance-none h = ground (arith, h)

  moves :
      (from : List ClaimState) (n : ℕ)
      → claim_sources to ≡ some from
      → apply (update from) (tables d) ≡ some (tables advanced.0, n)
      → ((r : ClaimRow) × Moves r × (n ≡ 1)) ⊎ ((n ≡ 0) × (tables advanced.0 ≡ tables d))
  unfolding sqlite_claim_of
  moves from n src h = elim (update_claim-cases codec id owner at to from (tables d) _ n src h) [
    | inl (r, held, (owned, permitted, one, t)) ↦
        inl (r, (held, owned, permitted, t, (from, src)), one)
    | inr u ↦ inr u
  ]

  -- `AdvanceClaim` moves the owner's claim, or changes nothing, whatever it reports.
  advance_whole : (tables advanced.0 ≡ tables d) ⊎ ((r : ClaimRow) × Moves r)
  advance_whole = elim (Option-cases (claim_sources to)) [
    | inl e ↦ inl (ap tables (advance-none e).0)
    | inr (from, e) ↦
        let same = (advance-sources from e).0 in
        elim (laws.exec_whole d ended (update from)) [
          | inl kept ↦ inl (ap tables same ∙ kept)
          | inr (n, p) ↦ elim (moves from n e (rw same p)) [
            | inl (r, m, _) ↦ inr (r, m)
            | inr (_, kept) ↦ inl kept
          ]
        ]
  ]

  moved-Advances :
      (r : ClaimRow)
      → Moves r
      → Advances owner to (stamp codec at) (claim_of d id) (claim_of advanced.0 id)
  unfolding sqlite_claim_of
  moved-Advances r (held, owned, permitted, t, (from, src)) = record {
    from = claim_of_row codec id r;
    held = held;
    owned = owned;
    permitted = permitted;
    moved =
        rw (t, claim_in-with_claim, claim_of_row-moved codec id owner at to from r src, eq_refl id)
          refl;
  }

  pub advance_own :
      (claim_of advanced.0 id ≡ claim_of d id)
      ⊎ Advances owner to (stamp codec at) (claim_of d id) (claim_of advanced.0 id)
  unfolding sqlite_claim_of
  advance_own = elim advance_whole [
    | inl same ↦ inl (rw same refl)
    | inr (r, m) ↦ inr (moved-Advances r m)
  ]

  pub advance_other : (other : String) → id ≢ other → claim_of advanced.0 other ≡ claim_of d other
  unfolding sqlite_claim_of
  advance_other other h = elim advance_whole [
    | inl same ↦ rw same refl
    | inr (r, (_, _, _, t, _)) ↦ rw t (
        ground (
          arith,
          claim_in-with_claim codec (tables d) id (moved_row codec id owner at to r) other,
          eq_iff id other,
        ))
  ]

  after_update-none :
      (r : Result Error (Result Error ℕ)) → after_update db codec r ≡ none → r ≡ ok (ok 1)
  unfolding after_update
  after_update-none (err e) h = absurd (ground arith)
  after_update-none (ok (err e)) h = absurd (ground arith)
  after_update-none (ok (ok n)) h = ground arith

  pub advance_done :
      advanced.1 ≡ none
      → Advances owner to (stamp codec at) (claim_of d id) (claim_of advanced.0 id)
  advance_done h = elim (Option-cases (claim_sources to)) [
    | inl e ↦ absurd ((advance-none e).1 h)
    | inr (from, e) ↦
        let (state, answer) = advance-sources from e in
        let one = after_update-none (db.exec d ended (update from)).1 (sym answer ∙ h) in
        elim (moves from 1 e (rw state (laws.exec_done d ended (update from) 1 one))) [
          | inl (r, m, _) ↦ moved-Advances r m
          | inr (zero, _) ↦ absurd (ground arith)
        ]
  ]

  -- `ErrClaimNotHeld` after the statement means that no row was changed.
  after_update-refused :
      (r : Result Error (Result Error ℕ)) (e : Error)
      → ((x : Error) → (r ≡ err x) ⊎ (r ≡ ok (err x)) → IsForeign x)
      → after_update db codec r ≡ some e
      → errors_is e claim_not_held ≡ true
      → (n : ℕ) × (r ≡ ok (ok n)) × (n ≢ 1)
  unfolding after_update errors_is
  after_update-refused (err x) e foreign h is =
      absurd (foreign x (inl refl) claim_not_held (λ p. ground (arith, p)) (ground (arith, h)))
  after_update-refused (ok (err x)) e foreign h is =
      absurd (foreign x (inr refl) claim_not_held (λ p. ground (arith, p)) (ground (arith, h)))
  after_update-refused (ok (ok n)) e foreign h is = (n, refl, ground arith)

  pub advance_refused :
      (e : Error)
      → advanced.1 ≡ some e
      → errors_is e claim_not_held ≡ true
      → claim_of advanced.0 id ≡ claim_of d id
  unfolding sqlite_claim_of
  advance_refused e h is = elim (Option-cases (claim_sources to)) [
    | inl p ↦ rw (advance-none p).0 refl
    | inr (from, p) ↦
        let (state, answer) = advance-sources from p in
        let (n, r, more) =
          after_update-refused (db.exec d ended (update from)).1 e
            (laws.exec_foreign d ended (update from)) (sym answer ∙ h) is in
        elim (moves from n p (rw state (laws.exec_done d ended (update from) n r))) [
          | inl (_, _, one) ↦ absurd (more one)
          | inr (_, kept) ↦ rw kept refl
        ]
  ]
