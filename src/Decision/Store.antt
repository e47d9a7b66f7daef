-- ===== src/Decision/Store.antt =====
-- internal/decision/store.go and claim.go: `MemoryStore`, the in-process decision and claim store.
-- The mutex makes each method one step on the state.
pub mod Records
pub mod Claims
pub mod Promises
use sentry_gate_ai.Prelude.{
  String, ℕ, Bool, true, false, not, ◌&&◌, ◌||◌, ◌==◌, List, [], ◌∷◌, ◌++◌, Option, none, some,
  if◌then◌else◌, ◌+++◌,
}
use sentry_gate_ai.Prelude.Assoc.{Map, lookup, insert, has}
use sentry_gate_ai.Prelude.Lists.{length, get_elem?}
use sentry_gate_ai.Contracts.{
  Error, sentinel, wrap, text, quote, index_panic, ctx_err, decision_conflict, decision_not_found,
  claim_not_held, claim_not_found, Result, ok, err, DecisionRecord, validate, record_equal, Time,
  ClaimState, ClaimOwner, ExecutionClaim, owner_valid, owner_eq, claim_state_eq, claim_state_text,
}
use sentry_gate_ai.Decision.Claim.{claim_sources, may_advance, claim_held_error, ClaimStore}

pub record MemoryStore : Type 0 where
  pub records : List DecisionRecord
  pub by_id : Map ℕ
  pub claims : Map ExecutionClaim

-- `NewMemoryStore`
abbrev pub new_memory_store : MemoryStore
new_memory_store = record { records = []; by_id = []; claims = [] }

-- A record found under its ID at index `i`: an identical one is accepted.
append_existing : MemoryStore → DecisionRecord → Option DecisionRecord → MemoryStore × Option Error
append_existing m rec none = (m, some index_panic)
append_existing m rec (some r) =
    (m, if record_equal r rec then none else some (sentinel decision_conflict))

append_valid : MemoryStore → DecisionRecord → Option ℕ → MemoryStore × Option Error
unfolding append_existing insert
append_valid m rec (some i) = append_existing m rec (get_elem? m.records i)
append_valid m rec none = (
  record m {
    records = m.records ++ rec ∷ [];
    by_id = insert rec.decision_id (length m.records) m.by_id;
  },
  none,
)

-- `AppendDecision`
unfoldable pub append_decision : MemoryStore → Bool → DecisionRecord → MemoryStore × Option Error
unfolding append_valid
append_decision m ended rec = elim (ctx_err ended) [
  | some e ↦ (m, some e)
  | none ↦ elim (validate rec) [
    | some e ↦ (m, some e)
    | none ↦ append_valid m rec (lookup rec.decision_id m.by_id)
  ]
]

record_at : Option DecisionRecord → Result Error DecisionRecord
record_at none = err index_panic
record_at (some r) = ok r

-- `GetDecision`
unfoldable pub get_decision : MemoryStore → Bool → String → Result Error DecisionRecord
unfolding record_at
get_decision m ended decision_id = elim (ctx_err ended) [
  | some e ↦ err e
  | none ↦ elim (lookup decision_id m.by_id) [
    | none ↦ err (sentinel decision_not_found)
    | some i ↦ record_at (get_elem? m.records i)
  ]
]

unfoldable pub with_proposal : String → List DecisionRecord → List DecisionRecord
with_proposal proposal_id [] = []
with_proposal proposal_id (r ∷ rs) =
    let rest = with_proposal proposal_id rs in
    if r.proposal_id == proposal_id then r ∷ rest else rest

-- `ListDecisionsByProposal`
unfoldable pub list_decisions_by_proposal :
    MemoryStore → Bool → String → Result Error (List DecisionRecord)
unfolding with_proposal
list_decisions_by_proposal m ended proposal_id = elim (ctx_err ended) [
  | some e ↦ err e
  | none ↦ ok (with_proposal proposal_id m.records)
]

new_claim : String → ClaimOwner → Time → ExecutionClaim
new_claim decision_id owner at = record {
  decision_id = decision_id;
  owner = owner;
  state = ClaimState.claimed;
  claimed_at = at;
  updated_at = at;
}

-- The `switch` of `ClaimExecution` on the claim that is there.
claim_existing :
    MemoryStore → String → ClaimOwner → Time → Option ExecutionClaim → MemoryStore × Option Error
unfolding new_claim insert owner_eq claim_held_error
claim_existing m decision_id owner at none =
    (record m { claims = insert decision_id (new_claim decision_id owner at) m.claims }, none)
claim_existing m decision_id owner at (some c) =
    if claim_state_eq c.state ClaimState.released
    then (record m { claims = insert decision_id (new_claim decision_id owner at) m.claims }, none)
    else if owner_eq c.owner owner && claim_state_eq c.state ClaimState.claimed
    then (m, none)
    else (m, some (claim_held_error c))

-- `ClaimExecution`
unfoldable pub claim_execution :
    MemoryStore → Bool → String → ClaimOwner → Time → MemoryStore × Option Error
unfolding claim_existing has
claim_execution m ended decision_id owner at = elim (ctx_err ended) [
  | some e ↦ (m, some e)
  | none ↦
      if decision_id == "" || not (owner_valid owner)
      then (m, some (text ("invalid claim for decision " +++ quote decision_id)))
      else if not (has decision_id m.by_id)
      then (m, some (sentinel decision_not_found))
      else claim_existing m decision_id owner at (lookup decision_id m.claims)
]

advance_existing :
    MemoryStore
    → String
    → ClaimOwner
    → ClaimState
    → Time
    → Option ExecutionClaim
    → MemoryStore × Option Error
unfolding insert owner_eq may_advance
advance_existing m decision_id owner to at none = (m, some (sentinel claim_not_held))
advance_existing m decision_id owner to at (some c) =
    if not (owner_eq c.owner owner) || not (may_advance c.state to)
    then (m, some (sentinel claim_not_held))
    else (
      record m { claims = insert decision_id (record c { state = to; updated_at = at }) m.claims },
      none,
    )

-- `AdvanceClaim`
unfoldable pub advance_claim :
    MemoryStore → Bool → String → ClaimOwner → ClaimState → Time → MemoryStore × Option Error
unfolding advance_existing
advance_claim m ended decision_id owner to at = elim (ctx_err ended) [
  | some e ↦ (m, some e)
  | none ↦ elim (claim_sources to) [
    | none ↦ (
      m,
      some (
          wrap "" (sentinel claim_not_held)
            (": invalid target state " +++ quote (claim_state_text to))),
    )
    | some _ ↦ advance_existing m decision_id owner to at (lookup decision_id m.claims)
  ]
]

-- `GetClaim`
unfoldable pub get_claim : MemoryStore → Bool → String → Result Error ExecutionClaim
get_claim m ended decision_id = elim (ctx_err ended) [
  | some e ↦ err e
  | none ↦ elim (lookup decision_id m.claims) [
    | none ↦ err (sentinel claim_not_found)
    | some c ↦ ok c
  ]
]

-- `MemoryStore` as a `ClaimStore`
abbrev pub memory_claim_store : ClaimStore MemoryStore
memory_claim_store = record {
  claim_execution = claim_execution;
  advance_claim = advance_claim;
  get_claim = get_claim;
}
