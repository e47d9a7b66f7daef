-- ===== src/Decision/Claim/Contract.antt =====
-- What the fence needs of a `ClaimStore`, stated by the claim that a decision has: each operation leaves
-- it alone or makes one permitted change, also when it reports an error (a write may commit and its
-- answer be lost). `ErrClaimNotHeld` means that nothing changed, and success that the change is made.
use sentry_gate_ai.Prelude.{◌≢◌, String, ◌≡◌, ◌⊎◌, Bool, true, Option, none, some}
use sentry_gate_ai.Contracts.{
  Error, errors_is, claim_not_held, ok, Time, ClaimState, ClaimOwner, ExecutionClaim,
}
use sentry_gate_ai.Decision.Claim.{may_advance, ClaimStore}

-- No claim, or one that was given up.
abbrev pub IsFree : Option ExecutionClaim → Type 0
IsFree none = Unit {0}
IsFree (some c) = c.state ≡ ClaimState.released

abbrev pub fresh_claim : String → ClaimOwner → Time → ExecutionClaim
fresh_claim id owner at = record {
  decision_id = id;
  owner = owner;
  state = ClaimState.claimed;
  claimed_at = at;
  updated_at = at;
}

-- `after` is `before`, claimed by `owner`.
pub record Claims (id : String) (owner : ClaimOwner) (at : Time)
    (before after : Option ExecutionClaim) : Type 0 where
  pub free : IsFree before
  pub taken : after ≡ some (fresh_claim id owner at)

-- `after` is `before`, moved to `to` by its owner from a state that permits it.
pub record Advances (owner : ClaimOwner) (to : ClaimState) (at : Time)
    (before after : Option ExecutionClaim) : Type 0 where
  pub from : ExecutionClaim
  pub held : before ≡ some from
  pub owned : from.owner ≡ owner
  pub permitted : may_advance from.state to ≡ true
  pub moved : after ≡ some (record from { state = to; updated_at = at })

-- `stamp` is the time that the store reads back for one that it wrote.
pub record ClaimStoreLaws (S : Type 0) (store : ClaimStore S)
    (claim_of : S → String → Option ExecutionClaim) (stamp : Time → Time) : Type 0 where
  pub claim_own :
      (s : S) (ended : Bool) (id : String) (owner : ClaimOwner) (at : Time)
      → let s' = (store.claim_execution s ended id owner at).0 in
        (claim_of s' id ≡ claim_of s id)
        ⊎ Claims id owner (stamp at) (claim_of s id) (claim_of s' id)
  pub claim_other :
      (s : S) (ended : Bool) (id : String) (owner : ClaimOwner) (at : Time) (d : String)
      → id ≢ d
      → claim_of (store.claim_execution s ended id owner at).0 d ≡ claim_of s d
  pub claim_done :
      (s : S) (ended : Bool) (id : String) (owner : ClaimOwner) (at : Time)
      → (store.claim_execution s ended id owner at).1 ≡ none
      → (c : ExecutionClaim) × (claim_of (store.claim_execution s ended id owner at).0 id ≡ some c)
        × (c.owner ≡ owner)
        × (c.state ≡ ClaimState.claimed)
  pub advance_own :
      (s : S) (ended : Bool) (id : String) (owner : ClaimOwner) (to : ClaimState) (at : Time)
      → let s' = (store.advance_claim s ended id owner to at).0 in
        (claim_of s' id ≡ claim_of s id)
        ⊎ Advances owner to (stamp at) (claim_of s id) (claim_of s' id)
  pub advance_other :
      (s : S) (ended : Bool) (id : String) (owner : ClaimOwner) (to : ClaimState) (at : Time)
      (d : String)
      → id ≢ d
      → claim_of (store.advance_claim s ended id owner to at).0 d ≡ claim_of s d
  pub advance_done :
      (s : S) (ended : Bool) (id : String) (owner : ClaimOwner) (to : ClaimState) (at : Time)
      → (store.advance_claim s ended id owner to at).1 ≡ none
      → Advances owner to
          (stamp at)
          (claim_of s id)
          (claim_of (store.advance_claim s ended id owner to at).0 id)
  pub advance_refused :
      (s : S) (ended : Bool) (id : String) (owner : ClaimOwner) (to : ClaimState) (at : Time)
      (e : Error)
      → (store.advance_claim s ended id owner to at).1 ≡ some e
      → errors_is e claim_not_held ≡ true
      → claim_of (store.advance_claim s ended id owner to at).0 id ≡ claim_of s id
  pub get_done :
      (s : S) (ended : Bool) (id : String) (c : ExecutionClaim)
      → store.get_claim s ended id ≡ ok c
      → claim_of s id ≡ some c
