-- ===== src/Decision/Suite/Cases.antt =====
-- internal/decision/decisiontest/claims.go: the tests of `RunClaimStoreTests` that do not race.
use sentry_gate_ai.Prelude.{List, [], ◌∷◌, ◌++◌}
use sentry_gate_ai.Contracts.{
  ClaimState, ClaimOwner, claim_held, claim_not_held, decision_not_found,
}
use sentry_gate_ai.Decision.Suite.{
  Step, seed, claim, advance, require_state, require_no_claim, success, any_error, fails, run_owner,
}

abbrev a : ClaimOwner
a = run_owner "run-1"

abbrev b : ClaimOwner
b = run_owner "run-2"

abbrev pub unknown_decision : List Step
unknown_decision =
    claim "dec_missing" a (fails decision_not_found) ∷ require_no_claim "dec_missing" ∷ []

abbrev pub incomplete_owner : List Step
incomplete_owner = seed "dec_1" ∷ claim "dec_1" (record a { token = "" }) any_error ∷ []

abbrev pub full_lifecycle : List Step
full_lifecycle =
    seed "dec_1"
    ∷ claim "dec_1" a success
    ∷ claim "dec_1" a success
    ∷ require_state "dec_1" ClaimState.claimed a
    ∷ advance "dec_1" a ClaimState.completed (fails claim_not_held)
    ∷ advance "dec_1" a ClaimState.executing success
    ∷ advance "dec_1" a ClaimState.executing (fails claim_not_held)
    ∷ advance "dec_1" a ClaimState.released (fails claim_not_held)
    ∷ claim "dec_1" a (fails claim_held)
    ∷ advance "dec_1" a ClaimState.completed success
    ∷ advance "dec_1" a ClaimState.completed success
    ∷ advance "dec_1" a ClaimState.failed (fails claim_not_held)
    ∷ require_state "dec_1" ClaimState.completed a
    ∷ claim "dec_1" b (fails claim_held)
    ∷ []

-- `mustTransition` for each state
unfoldable pub must_transition : ClaimOwner → List ClaimState → List Step
must_transition o [] = []
must_transition o (st ∷ sts) = advance "dec_1" o st success ∷ must_transition o sts

-- `mustAdvance`
unfoldable pub must_advance : ClaimOwner → List ClaimState → List Step
unfolding must_transition
must_advance o states = claim "dec_1" o success ∷ must_transition o states

unfoldable pub failed_dispatch : List Step
unfolding must_advance
failed_dispatch =
    seed "dec_1" ∷ must_advance a (ClaimState.executing ∷ ClaimState.failed ∷ [])
    ++ claim "dec_1" b (fails claim_held) ∷ require_state "dec_1" ClaimState.failed a ∷ []

-- For each final state, COMPLETED and FAILED
abbrev pub held_until_reconciled : ClaimState → List Step
held_until_reconciled final =
    seed "dec_1"
    ∷ claim "dec_1" a success
    ∷ advance "dec_1" a ClaimState.reconciliation_required (fails claim_not_held)
    ∷ advance "dec_1" a ClaimState.executing success
    ∷ advance "dec_1" a ClaimState.reconciliation_required success
    ∷ advance "dec_1" a ClaimState.reconciliation_required success
    ∷ advance "dec_1" a ClaimState.released (fails claim_not_held)
    ∷ claim "dec_1" a (fails claim_held)
    ∷ claim "dec_1" b (fails claim_held)
    ∷ advance "dec_1" b final (fails claim_not_held)
    ∷ require_state "dec_1" ClaimState.reconciliation_required a
    ∷ advance "dec_1" a final success
    ∷ advance "dec_1" a final success
    ∷ advance "dec_1" a ClaimState.reconciliation_required (fails claim_not_held)
    ∷ require_state "dec_1" final a
    ∷ []

-- For each path, with its last state
unfoldable pub fence_after : List ClaimState → ClaimState → List Step
unfolding must_advance
fence_after path last =
    seed "dec_1" ∷ must_advance a path
    ++ advance "dec_1" a ClaimState.executing (fails claim_not_held)
      ∷ require_state "dec_1" last a
      ∷ []

-- For each other execution
abbrev refused_to : ClaimOwner → List Step
refused_to o =
    claim "dec_1" o (fails claim_held)
    ∷ advance "dec_1" o ClaimState.executing (fails claim_not_held)
    ∷ advance "dec_1" o ClaimState.released (fails claim_not_held)
    ∷ []

abbrev pub other_executions : List Step
other_executions =
    seed "dec_1" ∷ claim "dec_1" a success ∷ refused_to b
    ++ refused_to (record a { token = "exe_other" })
    ++ refused_to (record a { run_id = "run-reset" })
    ++ require_state "dec_1" ClaimState.claimed a ∷ []

abbrev pub released_claim : List Step
released_claim =
    seed "dec_1"
    ∷ claim "dec_1" a success
    ∷ advance "dec_1" a ClaimState.released success
    ∷ advance "dec_1" a ClaimState.released success
    ∷ claim "dec_1" b success
    ∷ require_state "dec_1" ClaimState.claimed b
    ∷ advance "dec_1" a ClaimState.executing (fails claim_not_held)
    ∷ advance "dec_1" a ClaimState.released (fails claim_not_held)
    ∷ []

abbrev pub invalid_target : List Step
invalid_target =
    seed "dec_1"
    ∷ claim "dec_1" a success
    ∷ advance "dec_1" a ClaimState.claimed (fails claim_not_held)
    ∷ advance "dec_1" a (ClaimState.other "BOGUS") (fails claim_not_held)
    ∷ []

abbrev pub independent_decisions : List Step
independent_decisions =
    seed "dec_1" ∷ seed "dec_2" ∷ claim "dec_1" a success ∷ claim "dec_2" b success ∷ []
