-- ===== src/Decision/Claim.antt =====
-- internal/decision/claim.go: the claim transition table, the idempotency key, and the interface of
-- a claim store with what it promises. `MemoryStore` implements it in Decision/Store.antt.
pub mod Key
pub mod Contract
pub mod Promises
use sentry_gate_ai.Prelude.{
  String, ◌≡◌, ◌⊎◌, ◌≢◌, Bool, true, false, List, [], ◌∷◌, Option, none, some, ◌+++◌,
}
use sentry_gate_ai.Prelude.Lists.{any}
use sentry_gate_ai.Contracts.{
  Error, sentinel, wrap, claim_held, claim_not_held, claim_not_found, Result, ok, err, Time,
  ClaimState, ClaimOwner, ExecutionClaim, claim_state_eq, claim_state_text, owner_valid,
}

-- `ClaimSources`: the states from which an owner may move a claim to the given state.
unfoldable pub claim_sources : ClaimState → Option (List ClaimState)
claim_sources ClaimState.executing = some (ClaimState.claimed ∷ [])
claim_sources ClaimState.reconciliation_required =
    some (ClaimState.executing ∷ ClaimState.reconciliation_required ∷ [])
claim_sources ClaimState.completed =
    some (ClaimState.executing ∷ ClaimState.reconciliation_required ∷ ClaimState.completed ∷ [])
claim_sources ClaimState.failed =
    some (ClaimState.executing ∷ ClaimState.reconciliation_required ∷ ClaimState.failed ∷ [])
claim_sources ClaimState.released = some (ClaimState.claimed ∷ ClaimState.released ∷ [])
claim_sources _ = none

-- `slices.Contains(from, c.State)` for the sources of `to`.
unfoldable pub may_advance : ClaimState → ClaimState → Bool
unfolding claim_sources
may_advance from to = elim (claim_sources to) [
  | none ↦ false
  | some sources ↦ any (λ s. claim_state_eq s from) sources
]

-- `ExecutionKey`
unfoldable pub execution_key : String → String
execution_key decision_id = "sentrygate.exec.v1:" +++ decision_id

-- `ClaimHeldError`
unfoldable pub claim_held_error : ExecutionClaim → Error
claim_held_error c = wrap "" (sentinel claim_held) (
    ": state="
    +++ claim_state_text c.state
    +++ " workflow_id="
    +++ c.owner.workflow_id
    +++ " run_id="
    +++ c.owner.run_id)

-- The operations of `ClaimStore` over a state `S`: the new state, and the error if there is one.
-- The Boolean is whether the call's context has ended.
pub record ClaimStore (S : Type 0) : Type 0 where
  pub claim_execution : S → Bool → String → ClaimOwner → Time → S × Option Error
  pub advance_claim : S → Bool → String → ClaimOwner → ClaimState → Time → S × Option Error
  pub get_claim : S → Bool → String → Result Error ExecutionClaim
