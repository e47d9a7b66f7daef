-- ===== src/Sqlite/Claims/Effects.antt =====
-- What the two claim statements do to the claim of a decision.
use sentry_gate_ai.Prelude.{
  refl, ◌==◌, eq_iff, if◌then◌else◌, String, ◌≡◌, ◌⊎◌, ℕ, true, Option, none, some, arith,
  Option-cases, inl, inr, map, List,
}
use sentry_gate_ai.Prelude.Assoc.{lookup-insert, lookup, insert}
use sentry_gate_ai.Contracts.{Time, ClaimState, ClaimOwner, ExecutionClaim, claim_state_text}
use sentry_gate_ai.Decision.Claim.{claim_sources, may_advance}
use sentry_gate_ai.Decision.Claim.Contract.{IsFree, fresh_claim}
use sentry_gate_ai.Sqlite.Database.{Tables, ClaimRow, apply, insert_claim, update_claim}
use sentry_gate_ai.Sqlite.Rows.{Codec, stamp, claim_of_row, read_claim_state}
use sentry_gate_ai.Sqlite.Claims.States.{read_released, read_target, sources_agree}

claim_found : (codec : Codec) → String → Option ClaimRow → Option ExecutionClaim
claim_found codec id none = none
claim_found codec id (some r) = some (claim_of_row codec id r)

-- The claim on a decision.
unfoldable pub claim_in : Codec → Tables → String → Option ExecutionClaim
unfolding claim_found
claim_in codec t id = claim_found codec id (lookup id t.execution_claims)

-- The tables after a claim was written.
unfoldable pub with_claim : Tables → String → ClaimRow → Tables
with_claim t id row = record t { execution_claims = insert id row t.execution_claims }

pub claim_in-with_claim :
    (codec : Codec) (t : Tables) (id : String) (row : ClaimRow) (d : String)
    → claim_in codec (with_claim t id row) d
      ≡ (if id == d then some (claim_of_row codec id row) else claim_in codec t d)
unfolding claim_in with_claim claim_found
claim_in-with_claim codec t id row d =
    ground (arith, lookup-insert id d row t.execution_claims, eq_iff id d)

module _ (codec : Codec) (id : String) (owner : ClaimOwner) (at : Time) where
  unfoldable pub fresh_row : ClaimRow
  fresh_row = record {
    workflow_id = owner.workflow_id;
    run_id = owner.run_id;
    claim_token = owner.token;
    state = "CLAIMED";
    claimed_at = codec.format at;
    updated_at = codec.format at;
  }

  pub claim_of_row-fresh : claim_of_row codec id fresh_row ≡ fresh_claim id owner (stamp codec at)
  unfolding claim_of_row fresh_row read_claim_state stamp
  claim_of_row-fresh = refl

  pub insert_claim-cases :
      (t t' : Tables) (n : ℕ)
      → apply
          (insert_claim id owner.workflow_id owner.run_id owner.token
            (codec.format at)
            (codec.format at))
          t
        ≡ some (t', n)
      → (IsFree (claim_in codec t id) × (n ≡ 1) × (t' ≡ with_claim t id fresh_row))
        ⊎ ((n ≡ 0) × (t' ≡ t))
  unfolding apply with_claim fresh_row claim_in claim_found claim_of_row
  insert_claim-cases t t' n h = elim (Option-cases (lookup id t.execution_claims)) [
    | inl e ↦ ground (arith, e)
    | inr (r, e) ↦ ground (arith, e, read_released r.state)
  ]

  -- The row of a claim that was moved.
  unfoldable pub moved_row : ClaimState → ClaimRow → ClaimRow
  moved_row to r = record r { state = claim_state_text to; updated_at = codec.format at }

  pub claim_of_row-moved :
      (to : ClaimState) (from : List ClaimState) (r : ClaimRow)
      → claim_sources to ≡ some from
      → claim_of_row codec id (moved_row to r)
        ≡ record (claim_of_row codec id r) { state = to; updated_at = stamp codec at }
  unfolding claim_of_row moved_row stamp
  claim_of_row-moved to from r h = rw (read_target to from h) refl

  module _ (to : ClaimState) (from : List ClaimState) (t t' : Tables) (n : ℕ) where
    abbrev Update : Type 0
    Update =
        apply
          (update_claim (claim_state_text to) (codec.format at) id owner.workflow_id owner.run_id
            owner.token (map claim_state_text from))
          t
        ≡ some (t', n)

    abbrev Moves : ClaimRow → Type 0
    Moves r =
        ((claim_of_row codec id r).owner ≡ owner)
        × (may_advance (claim_of_row codec id r).state to ≡ true)
        × (n ≡ 1)
        × (t' ≡ with_claim t id (moved_row to r))

    update_found-cases :
        (r : ClaimRow)
        → lookup id t.execution_claims ≡ some r
        → claim_sources to ≡ some from
        → Update
        → Moves r ⊎ ((n ≡ 0) × (t' ≡ t))
    unfolding apply with_claim moved_row claim_of_row
    update_found-cases r e src h = ground (
      arith,
      sources_agree to from r.state src,
      eq_iff r.workflow_id owner.workflow_id,
      eq_iff r.run_id owner.run_id,
      eq_iff r.claim_token owner.token,
    )

    update_missing : lookup id t.execution_claims ≡ none → Update → (n ≡ 0) × (t' ≡ t)
    unfolding apply
    update_missing e h = ground arith

    pub update_claim-cases :
        claim_sources to ≡ some from
        → Update
        → ((r : ClaimRow) × (claim_in codec t id ≡ some (claim_of_row codec id r)) × Moves r)
          ⊎ ((n ≡ 0) × (t' ≡ t))
    unfolding claim_in claim_found
    update_claim-cases src h = elim (Option-cases (lookup id t.execution_claims)) [
      | inl e ↦ inr (update_missing e h)
      | inr (r, e) ↦ elim (update_found-cases r e src h) [
        | inl m ↦ inl (r, rw e refl, m)
        | inr u ↦ inr u
      ]
    ]
