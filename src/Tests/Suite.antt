-- ===== src/Tests/Suite.antt =====
-- The conformance suite run on `MemoryStore`, and its racing test at three owners.
use sentry_gate_ai.Contracts.{ctx_err}
use sentry_gate_ai.Contracts.{validate}
use sentry_gate_ai.Decision.Store.{advance_claim}
use sentry_gate_ai.Decision.Store.{claim_execution}
use sentry_gate_ai.Decision.Store.{get_claim}
use sentry_gate_ai.Prelude.Assoc.{lookup}
use sentry_gate_ai.Prelude.{refl, ◌≡◌, ◌≢◌, Bool, true, not, List, [], ◌∷◌, is_none, arith, eq_iff}
use sentry_gate_ai.Prelude.Assoc.{has}
use sentry_gate_ai.Contracts.{ClaimState, ClaimOwner, claim_held, owner_valid}
use sentry_gate_ai.Decision.Store.{MemoryStore, new_memory_store, append_decision}
use sentry_gate_ai.Decision.Store.Claims.{memory_claim_of}
use sentry_gate_ai.Decision.Claim.Contract.{IsFree}
use sentry_gate_ai.Decision.Suite.{
  Step, run_steps, run_owner, seed_record, claim_all, require_one_winner,
}
use sentry_gate_ai.Decision.Suite.Cases.{
  unknown_decision, incomplete_owner, full_lifecycle, failed_dispatch, held_until_reconciled,
  fence_after, other_executions, released_claim, invalid_target, independent_decisions,
}
use sentry_gate_ai.Decision.Suite.Winner.{memory_stores, Others, one_claim_wins}

passes : List Step → Bool
unfolding run_steps
passes test = not (is_none (run_steps memory_stores test new_memory_store))

unknown_decision-passes : passes unknown_decision ≡ true
unfolding passes claim_execution ctx_err owner_valid lookup get_claim
unknown_decision-passes = refl

incomplete_owner-passes : passes incomplete_owner ≡ true
unfolding passes append_decision ctx_err validate lookup claim_execution owner_valid
incomplete_owner-passes = refl

full_lifecycle-passes : passes full_lifecycle ≡ true
unfolding passes append_decision ctx_err validate lookup claim_execution owner_valid get_claim
    advance_claim
full_lifecycle-passes = refl

failed_dispatch-passes : passes failed_dispatch ≡ true
unfolding passes failed_dispatch append_decision ctx_err validate lookup claim_execution owner_valid
    advance_claim get_claim
failed_dispatch-passes = refl

reconciled_completed-passes : passes (held_until_reconciled ClaimState.completed) ≡ true
unfolding passes append_decision ctx_err validate lookup claim_execution owner_valid advance_claim
    get_claim
reconciled_completed-passes = refl

reconciled_failed-passes : passes (held_until_reconciled ClaimState.failed) ≡ true
unfolding passes append_decision ctx_err validate lookup claim_execution owner_valid advance_claim
    get_claim
reconciled_failed-passes = refl

fence_after_release-passes :
    passes (fence_after (ClaimState.released ∷ []) ClaimState.released) ≡ true
unfolding passes fence_after append_decision ctx_err validate lookup claim_execution owner_valid
    advance_claim get_claim
fence_after_release-passes = refl

fence_after_fence-passes :
    passes (fence_after (ClaimState.executing ∷ []) ClaimState.executing) ≡ true
unfolding passes fence_after append_decision ctx_err validate lookup claim_execution owner_valid
    advance_claim get_claim
fence_after_fence-passes = refl

other_executions-passes : passes other_executions ≡ true
unfolding passes append_decision ctx_err validate lookup claim_execution owner_valid advance_claim
    get_claim
other_executions-passes = refl

released_claim-passes : passes released_claim ≡ true
unfolding passes append_decision ctx_err validate lookup claim_execution owner_valid advance_claim
    get_claim
released_claim-passes = refl

invalid_target-passes : passes invalid_target ≡ true
unfolding passes append_decision ctx_err validate lookup claim_execution owner_valid advance_claim
invalid_target-passes = refl

independent_decisions-passes : passes independent_decisions ≡ true
unfolding passes append_decision ctx_err validate lookup claim_execution owner_valid
independent_decisions-passes = refl

abbrev seeded : MemoryStore
seeded = record new_memory_store { records = seed_record "dec_1" ∷ []; by_id = ("dec_1", 0) ∷ [] }

abbrev rivals : List ClaimOwner
rivals = run_owner "run-2" ∷ run_owner "run-3" ∷ []

named : (seed_record "dec_1").decision_id ≢ ""
named h = ground (arith, eq_iff "dec_1" "")

recorded : has "dec_1" seeded.by_id ≡ true
unfolding has lookup
recorded = refl

free : IsFree (memory_claim_of seeded "dec_1")
unfolding memory_claim_of lookup
free = tt

first_valid : owner_valid (run_owner "run-1") ≡ true
unfolding owner_valid
first_valid = refl

rivals-Others : Others (run_owner "run-1") rivals
unfolding owner_valid
rivals-Others = (
  refl,
  λ e. ground (arith, eq_iff "run-1" "run-2"),
  (refl, λ e. ground (arith, eq_iff "run-1" "run-3"), tt),
)

one_claim_wins_example :
    require_one_winner claim_held
      (claim_all memory_stores "dec_1" (run_owner "run-1" ∷ rivals) seeded).1
    ≡ true
one_claim_wins_example =
    one_claim_wins seeded "dec_1" (run_owner "run-1") rivals named recorded free first_valid
      rivals-Others
