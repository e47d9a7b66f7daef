-- ===== src/Decision/Suite/Winner.antt =====
-- The racing tests of the conformance suite over `MemoryStore`, for every order and number of calls.
use sentry_gate_ai.Prelude.{
  refl, sym, ap, subst, inl, ◌∙◌, String, ◌≡◌, ◌≢◌, ℕ, zero, suc, true, false, List, [], ◌∷◌, none,
  some, arith, eq_iff,
}
use sentry_gate_ai.Prelude.Assoc.{has}
use sentry_gate_ai.Prelude.Lists.{count}
use sentry_gate_ai.Contracts.{
  sentinel, errors_is, ctx_err, claim_held, claim_not_held, ClaimState, ClaimOwner, ExecutionClaim,
  owner_valid, owner_eq_iff,
}
use sentry_gate_ai.Decision.Claim.{claim_held_error, may_advance}
use sentry_gate_ai.Decision.Claim.Contract.{IsFree}
use sentry_gate_ai.Decision.Store.{
  MemoryStore, memory_claim_store, append_decision, claim_execution, advance_claim,
}
use sentry_gate_ai.Decision.Store.Claims.{
  memory_claim_of, claim_done, advance_done, claim_execution_iff,
}
use sentry_gate_ai.Decision.Suite.{
  Stores, at, claim_all, fence_all, all_refused, is_success, require_one_winner,
}

-- `MemoryStore` as `Stores`, with `context.Background()`
abbrev pub memory_stores : Stores MemoryStore
memory_stores = record {
  append_decision = λ m rec. append_decision m false rec;
  claims = memory_claim_store;
}

-- Every owner is complete and none is `o`.
abbrev pub Others : ClaimOwner → List ClaimOwner → Type 0
Others o [] = Unit {0}
Others o (x ∷ xs) = (owner_valid x ≡ true) × (o ≢ x) × Others o xs

module _ (m : MemoryStore) (id : String) (recorded : has id m.by_id ≡ true) (named : id ≢ "") where
  -- Once a claim is taken, another owner gets `ErrClaimHeld` and changes nothing.
  refused :
      (c : ExecutionClaim) (o : ClaimOwner)
      → memory_claim_of m id ≡ some c
      → c.state ≡ ClaimState.claimed
      → c.owner ≢ o
      → owner_valid o ≡ true
      → claim_execution m false id o at ≡ (m, some (claim_held_error c))
  unfolding claim_execution memory_claim_of ctx_err
  refused c o held claimed other valid = ground (arith, eq_iff id "", owner_eq_iff c.owner o)

  held_error : (c : ExecutionClaim) → errors_is (claim_held_error c) claim_held ≡ true
  unfolding claim_held_error errors_is
  held_error c = refl

  all_lose :
      (c : ExecutionClaim) (os : List ClaimOwner)
      → memory_claim_of m id ≡ some c
      → c.state ≡ ClaimState.claimed
      → Others c.owner os
      → let es = (claim_all memory_stores id os m).1 in
        (all_refused claim_held es ≡ true) × (count is_success es ≡ 0)
  unfolding claim_all all_refused
  all_lose c [] held claimed others = (refl, refl)
  all_lose c (o ∷ os) held claimed (valid, other, others) =
      let lost = refused c o held claimed other valid in
      rw (lost, held_error c) (all_lose c os held claimed others)

claim-keeps_index :
    (m : MemoryStore) (id : String) (o : ClaimOwner)
    → (claim_execution m false id o at).0.by_id ≡ m.by_id
unfolding claim_execution
claim-keeps_index m id o = ground arith

-- Over a MemoryStore in which a decision is recorded and free, claims by any number of complete
-- owners, in any order in which the first owner appears once, have exactly one winner, and all others
-- get ErrClaimHeld.
pub one_claim_wins :
    (m : MemoryStore) (id : String) (o : ClaimOwner) (os : List ClaimOwner)
    → id ≢ ""
    → has id m.by_id ≡ true
    → IsFree (memory_claim_of m id)
    → owner_valid o ≡ true
    → Others o os
    → require_one_winner claim_held (claim_all memory_stores id (o ∷ os) m).1 ≡ true
unfolding claim_all require_one_winner all_refused
one_claim_wins m id o os named recorded free valid others =
    let m' = (claim_execution m false id o at).0 in
    let won = (claim_execution_iff m id o at).1 (named, valid, recorded, inl free) in
    let (c, held, owned, claimed) = claim_done m false id o at won in
    let recorded' = ap (has id) (claim-keeps_index m id o) ∙ recorded in
    let (refused, none_won) =
      all_lose m' id recorded' named c os held claimed
        (subst (λ x. Others x os) (sym owned) others) in
    rw won (ground (arith, refused, none_won))

fence_wins :
    (m : MemoryStore) (id : String) (o : ClaimOwner) (c : ExecutionClaim)
    → memory_claim_of m id ≡ some c
    → c.owner ≡ o
    → c.state ≡ ClaimState.claimed
    → (advance_claim m false id o ClaimState.executing at).1 ≡ none
unfolding advance_claim memory_claim_of may_advance ctx_err
fence_wins m id o c held owned claimed = ground (arith, owner_eq_iff c.owner o)

fence_loses :
    (m : MemoryStore) (id : String) (o : ClaimOwner) (c : ExecutionClaim)
    → memory_claim_of m id ≡ some c
    → c.state ≡ ClaimState.executing
    → advance_claim m false id o ClaimState.executing at ≡ (m, some (sentinel claim_not_held))
unfolding advance_claim memory_claim_of may_advance ctx_err
fence_loses m id o c held executing = ground (arith, owner_eq_iff c.owner o)

all_fences_lose :
    (m : MemoryStore) (id : String) (o : ClaimOwner) (c : ExecutionClaim) (n : ℕ)
    → memory_claim_of m id ≡ some c
    → c.state ≡ ClaimState.executing
    → let es = (fence_all memory_stores id o n m).1 in
      (all_refused claim_not_held es ≡ true) × (count is_success es ≡ 0)
unfolding fence_all all_refused errors_is
all_fences_lose m id o c zero held executing = (refl, refl)
all_fences_lose m id o c (suc n) held executing =
    rw (fence_loses m id o c held executing) (all_fences_lose m id o c n held executing)

-- Any number of moves to EXECUTING by the owner of a CLAIMED claim have exactly one winner.
one_fence_wins :
    (m : MemoryStore) (id : String) (o : ClaimOwner) (c : ExecutionClaim) (n : ℕ)
    → memory_claim_of m id ≡ some c
    → c.owner ≡ o
    → c.state ≡ ClaimState.claimed
    → require_one_winner claim_not_held (fence_all memory_stores id o (suc n) m).1 ≡ true
unfolding fence_all require_one_winner all_refused
one_fence_wins m id o c n held owned claimed =
    let m' = (advance_claim m false id o ClaimState.executing at).0 in
    let won = fence_wins m id o c held owned claimed in
    let moved = advance_done m false id o at ClaimState.executing won in
    let (refused, none_won) = all_fences_lose m' id o _ n moved.moved refl in
    rw won (ground (arith, refused, none_won))
