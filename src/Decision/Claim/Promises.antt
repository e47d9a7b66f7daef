-- ===== src/Decision/Claim/Promises.antt =====
-- internal/decision/claim.go: what the comments of `ClaimStore` promise, with how a call is answered.
-- A call is answered as promised when the store can serve it: its context is live, and what the store
-- stands on works. `IsRecorded` is what the store knows as an ingress decision.
use sentry_gate_ai.Prelude.{String, ◌≡◌, ◌≢◌, ◌<◌, Bool, true, Option, none, some}
use sentry_gate_ai.Contracts.{
  Error, errors_is, sentinel, claim_held, claim_not_held, claim_not_found, decision_not_found, ok,
  err, Time, year_10000, ClaimState, ClaimOwner, ExecutionClaim, owner_valid,
}
use sentry_gate_ai.Decision.Claim.{may_advance, claim_held_error, ClaimStore}
use sentry_gate_ai.Decision.Claim.Contract.{ClaimStoreLaws, IsFree}

-- A complete request for a claim
abbrev pub IsComplete : String → ClaimOwner → Type 0
IsComplete id owner = (id ≢ "") × (owner_valid owner ≡ true)

-- The claim is held by this owner and has not gone further.
abbrev pub IsClaimedBy : ClaimOwner → ExecutionClaim → Type 0
IsClaimedBy owner c = (c.owner ≡ owner) × (c.state ≡ ClaimState.claimed)

pub record ClaimStorePromises (S : Type 0) (store : ClaimStore S)
    (claim_of : S → String → Option ExecutionClaim) (stamp : Time → Time)
    (IsRecorded : S → String → Type 0) (Serves : S → Bool → String → Type 0) : Type 0 where
  pub laws : ClaimStoreLaws S store claim_of stamp
  -- A time before the year 10000 is read back as it was written.
  pub stamped : (t : Time) → t < year_10000 → stamp t ≡ t
  -- A free decision that is recorded is claimed.
  pub claims_free :
      (s : S) (ended : Bool) (id : String) (owner : ClaimOwner) (at : Time)
      → Serves s ended id
      → IsComplete id owner
      → IsRecorded s id
      → IsFree (claim_of s id)
      → (store.claim_execution s ended id owner at).1 ≡ none
  -- A repeat call by the owner succeeds.
  pub claims_again :
      (s : S) (ended : Bool) (id : String) (owner : ClaimOwner) (at : Time) (c : ExecutionClaim)
      → Serves s ended id
      → IsComplete id owner
      → IsRecorded s id
      → claim_of s id ≡ some c
      → IsClaimedBy owner c
      → (store.claim_execution s ended id owner at).1 ≡ none
  -- A claim of another owner, or one that has gone further, blocks the call.
  pub claim_blocked :
      (s : S) (ended : Bool) (id : String) (owner : ClaimOwner) (at : Time) (c : ExecutionClaim)
      → Serves s ended id
      → IsComplete id owner
      → IsRecorded s id
      → claim_of s id ≡ some c
      → c.state ≢ ClaimState.released
      → (IsClaimedBy owner c → ⊥)
      → (store.claim_execution s ended id owner at).1 ≡ some (claim_held_error c)
  -- A decision that is not recorded is not claimed.
  pub claim_unknown :
      (s : S) (ended : Bool) (id : String) (owner : ClaimOwner) (at : Time)
      → Serves s ended id
      → IsComplete id owner
      → (IsRecorded s id → ⊥)
      → claim_of s id ≡ none
      → (e : Error) × ((store.claim_execution s ended id owner at).1 ≡ some e)
        × (errors_is e decision_not_found ≡ true)
  -- `ErrClaimHeld` means that nothing changed.
  pub claim_refused :
      (s : S) (ended : Bool) (id : String) (owner : ClaimOwner) (at : Time) (e : Error)
      → (store.claim_execution s ended id owner at).1 ≡ some e
      → errors_is e claim_held ≡ true
      → claim_of (store.claim_execution s ended id owner at).0 id ≡ claim_of s id
  -- The owner moves its claim from a state that permits it.
  pub advances :
      (s : S) (ended : Bool) (id : String) (owner : ClaimOwner) (to : ClaimState) (at : Time)
      (c : ExecutionClaim)
      → Serves s ended id
      → claim_of s id ≡ some c
      → c.owner ≡ owner
      → may_advance c.state to ≡ true
      → (store.advance_claim s ended id owner to at).1 ≡ none
  -- Every other call gets `ErrClaimNotHeld`.
  pub advance_blocked :
      (s : S) (ended : Bool) (id : String) (owner : ClaimOwner) (to : ClaimState) (at : Time)
      (e : Error)
      → Serves s ended id
      → (store.advance_claim s ended id owner to at).1 ≡ some e
      → errors_is e claim_not_held ≡ true
  pub finds :
      (s : S) (ended : Bool) (id : String) (c : ExecutionClaim)
      → Serves s ended id
      → claim_of s id ≡ some c
      → store.get_claim s ended id ≡ ok c
  pub misses :
      (s : S) (ended : Bool) (id : String)
      → Serves s ended id
      → claim_of s id ≡ none
      → store.get_claim s ended id ≡ err (sentinel claim_not_found)
