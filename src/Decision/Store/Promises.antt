-- ===== src/Decision/Store/Promises.antt =====
-- `MemoryStore` answers its claim operations as `ClaimStore` promises, in every live context.
use sentry_gate_ai.Prelude.{
  String, ◌≡◌, ◌≢◌, Bool, true, false, none, some, arith, eq_iff, Option-cases, inl, inr, refl,
}
use sentry_gate_ai.Prelude.Assoc.{has, lookup}
use sentry_gate_ai.Contracts.{
  Error, errors_is, sentinel, claim_not_held, claim_not_found, decision_not_found, ok, err, ctx_err,
  Time, ClaimState, ClaimOwner, ExecutionClaim, owner_eq_iff, is_claimed,
}
use sentry_gate_ai.Decision.Claim.{may_advance, claim_sources, claim_held_error}
use sentry_gate_ai.Decision.Claim.Contract.{IsFree}
use sentry_gate_ai.Decision.Claim.Promises.{IsComplete, IsClaimedBy, ClaimStorePromises}
use sentry_gate_ai.Decision.Store.{
  memory_claim_store, MemoryStore, claim_execution, advance_claim, get_claim,
}
use sentry_gate_ai.Decision.Store.Claims.{
  memory_claim_of, memory_claim_store-laws, claim_execution_iff,
}

-- A live context is all that the store needs.
abbrev pub IsLive : MemoryStore → Bool → String → Type 0
IsLive m ended id = ended ≡ false

abbrev pub IsKnown : MemoryStore → String → Type 0
IsKnown m id = has id m.by_id ≡ true

claims_free :
    (m : MemoryStore) (ended : Bool) (id : String) (owner : ClaimOwner) (at : Time)
    → IsLive m ended id
    → IsComplete id owner
    → IsKnown m id
    → IsFree (memory_claim_of m id)
    → (claim_execution m ended id owner at).1 ≡ none
claims_free m ended id owner at live (named, valid) known free =
    rw live ((claim_execution_iff m id owner at).1 (named, valid, known, inl free))

claims_again :
    (m : MemoryStore) (ended : Bool) (id : String) (owner : ClaimOwner) (at : Time)
    (c : ExecutionClaim)
    → IsLive m ended id
    → IsComplete id owner
    → IsKnown m id
    → memory_claim_of m id ≡ some c
    → IsClaimedBy owner c
    → (claim_execution m ended id owner at).1 ≡ none
claims_again m ended id owner at c live (named, valid) known held mine =
    rw live ((claim_execution_iff m id owner at).1 (named, valid, known, inr (rw held mine)))

claim_blocked :
    (m : MemoryStore) (ended : Bool) (id : String) (owner : ClaimOwner) (at : Time)
    (c : ExecutionClaim)
    → IsLive m ended id
    → IsComplete id owner
    → IsKnown m id
    → memory_claim_of m id ≡ some c
    → c.state ≢ ClaimState.released
    → (IsClaimedBy owner c → ⊥)
    → (claim_execution m ended id owner at).1 ≡ some (claim_held_error c)
unfolding claim_execution memory_claim_of ctx_err
claim_blocked m ended id owner at c live (named, valid) known held kept other = ground (
  arith,
  live,
  eq_iff id "",
  owner_eq_iff c.owner owner,
  is_claimed c.state,
  λ (o : c.owner ≡ owner) (p : c.state ≡ ClaimState.claimed). other (o, p),
)

claim_unknown :
    (m : MemoryStore) (ended : Bool) (id : String) (owner : ClaimOwner) (at : Time)
    → IsLive m ended id
    → IsComplete id owner
    → (IsKnown m id → ⊥)
    → memory_claim_of m id ≡ none
    → (e : Error) × ((claim_execution m ended id owner at).1 ≡ some e)
      × (errors_is e decision_not_found ≡ true)
unfolding claim_execution ctx_err errors_is
claim_unknown m ended id owner at live (named, valid) unknown free =
    (sentinel decision_not_found, ground (arith, live, eq_iff id "", unknown), refl)

claim_refused :
    (m : MemoryStore) (ended : Bool) (id : String) (owner : ClaimOwner) (at : Time) (e : Error)
    → (claim_execution m ended id owner at).1 ≡ some e
    → memory_claim_of (claim_execution m ended id owner at).0 id ≡ memory_claim_of m id
unfolding claim_execution memory_claim_of
claim_refused m ended id owner at e h = elim (Option-cases (lookup id m.claims)) [
  | inl p ↦ ground (arith, p)
  | inr (c, p) ↦ ground (arith, p)
]

advances :
    (m : MemoryStore) (ended : Bool) (id : String) (owner : ClaimOwner) (to : ClaimState)
    (at : Time) (c : ExecutionClaim)
    → IsLive m ended id
    → memory_claim_of m id ≡ some c
    → c.owner ≡ owner
    → may_advance c.state to ≡ true
    → (advance_claim m ended id owner to at).1 ≡ none
unfolding advance_claim memory_claim_of ctx_err may_advance
advances m ended id owner to at c live held mine permitted =
    elim (Option-cases (claim_sources to)) [
      | inl e ↦ absurd (ground (arith, e))
      | inr (from, e) ↦ ground (arith, e, live, owner_eq_iff c.owner owner)
    ]

advance_blocked :
    (m : MemoryStore) (ended : Bool) (id : String) (owner : ClaimOwner) (to : ClaimState)
    (at : Time) (e : Error)
    → IsLive m ended id
    → (advance_claim m ended id owner to at).1 ≡ some e
    → errors_is e claim_not_held ≡ true
unfolding advance_claim ctx_err errors_is
advance_blocked m ended id owner to at e live h = ground (arith, live)

finds :
    (m : MemoryStore) (ended : Bool) (id : String) (c : ExecutionClaim)
    → IsLive m ended id
    → memory_claim_of m id ≡ some c
    → get_claim m ended id ≡ ok c
unfolding get_claim memory_claim_of ctx_err
finds m ended id c live held = ground (arith, live)

misses :
    (m : MemoryStore) (ended : Bool) (id : String)
    → IsLive m ended id
    → memory_claim_of m id ≡ none
    → get_claim m ended id ≡ err (sentinel claim_not_found)
unfolding get_claim memory_claim_of ctx_err
misses m ended id live free = ground (arith, live)

-- `MemoryStore` keeps the contract of `ClaimStore`: its laws, and in a live context how it answers. A
-- complete claim of a recorded decision succeeds if it is free or CLAIMED by the same owner and gets
-- ErrClaimHeld otherwise; an unclaimed decision that is not recorded gets ErrDecisionNotFound; the
-- owner's permitted transition succeeds and every other one gets ErrClaimNotHeld; GetClaim answers the
-- claim or ErrClaimNotFound; and ErrClaimHeld means that the claim is unchanged.
pub memory_claim_store-promises :
    ClaimStorePromises MemoryStore memory_claim_store memory_claim_of (λ at. at) IsKnown IsLive
memory_claim_store-promises = record {
  laws = memory_claim_store-laws;
  stamped = λ t early. refl;
  claims_free = claims_free;
  claims_again = claims_again;
  claim_blocked = claim_blocked;
  claim_unknown = claim_unknown;
  claim_refused = λ m ended id owner at e h _. claim_refused m ended id owner at e h;
  advances = advances;
  advance_blocked = advance_blocked;
  finds = finds;
  misses = misses;
}
