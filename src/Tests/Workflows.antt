-- ===== src/Tests/Workflows.antt =====
-- The properties of the dispatch activity and of the simulated adapter at concrete inputs.
use sentry_gate_ai.Contracts.{
  ctx_err, owner_valid, ok, err, ClaimState, DispatchRequest, DispatchOutcome, OutcomeStatus,
  FencedDispatch,
}
use sentry_gate_ai.Decision.Claim.{execution_key}
use sentry_gate_ai.Decision.Store.{advance_claim, MemoryStore, memory_claim_store, claim_execution}
use sentry_gate_ai.Prelude.Assoc.{insert, lookup}
use sentry_gate_ai.Workflows.Activities.{
  after_fence, Call, ActivityError, fence_rejected, dispatch_config,
}
use sentry_gate_ai.Workflows.Simulated.{
  dispatch, new_simulated_adapter, simulated_adapter, mutations_of, reconcile,
}
use sentry_gate_ai.Workflows.Simulated.Consistent.{serve, Request, serve_all}
use sentry_gate_ai.Workflows.Simulated.Effects.{simulated_at_most_once, reconcile_failure_final}
use sentry_gate_ai.Prelude.{◌≡◌, ◌≢◌, ◌≤◌, refl, true, false, none, List, [], ◌∷◌}
use sentry_gate_ai.Decision.Store.Claims.{memory_claim_of, memory_claim_store-laws}
use sentry_gate_ai.Workflows.Fence.{
  IsDispatched, IsRefused, dispatch_config-IsDispatched, dispatch_config-IsRefused, run_dispatch,
}
use sentry_gate_ai.Workflows.Once.{
  Invocation, invoke_all, dispatches, used, dispatched_at_most_once,
}
use sentry_gate_ai.Tests.{restart, owner}
use sentry_gate_ai.Tests.Stores.{one_decision}

abbrev call : Call
call = record {
  workflow_id = "wf-1";
  run_id = "run-1";
  now = 9;
  ended = false;
  ended_second = false;
  ended_third = false;
}

abbrev sent : DispatchRequest
sent = record { idempotency_key = "sentrygate.exec.v1:dec-1"; proposal = restart }

abbrev fenced : FencedDispatch
fenced = record { decision_id = "dec-1"; token = "exe_1"; dispatch = sent }

-- The store after the run claimed the decision.
abbrev claimed_decision : MemoryStore
claimed_decision = (claim_execution one_decision false "dec-1" owner 8).0

abbrev applied : DispatchOutcome
applied = record {
  status = OutcomeStatus.success;
  partially_applied = false;
  detail = "simulated: change applied";
}

dispatch_runs :
    (run_dispatch memory_claim_store simulated_adapter memory_claim_of memory_claim_store-laws call
      fenced claimed_decision new_simulated_adapter).1
    ≡ ok applied
unfolding dispatch_config claim_execution execution_key after_fence advance_claim ctx_err lookup
    owner_valid dispatch
dispatch_runs = refl

dispatch_config-IsDispatched_example :
    IsDispatched memory_claim_store simulated_adapter memory_claim_of memory_claim_store-laws call
      fenced claimed_decision new_simulated_adapter applied
dispatch_config-IsDispatched_example =
    dispatch_config-IsDispatched memory_claim_store simulated_adapter memory_claim_of
      memory_claim_store-laws call fenced claimed_decision new_simulated_adapter applied
      dispatch_runs

abbrev keyless : FencedDispatch
keyless = record fenced { dispatch = record sent { idempotency_key = "other" } }

abbrev wrong_key : ActivityError
wrong_key = fence_rejected "idempotency key does not belong to the fenced decision" none

refused_runs :
    (run_dispatch memory_claim_store simulated_adapter memory_claim_of memory_claim_store-laws call
      keyless claimed_decision new_simulated_adapter).1
    ≡ err wrong_key
unfolding dispatch_config execution_key
refused_runs = refl

dispatch_config-IsRefused_example :
    IsRefused memory_claim_store simulated_adapter memory_claim_of memory_claim_store-laws call
      keyless claimed_decision new_simulated_adapter wrong_key
dispatch_config-IsRefused_example =
    dispatch_config-IsRefused memory_claim_store simulated_adapter memory_claim_of
      memory_claim_store-laws call keyless claimed_decision new_simulated_adapter wrong_key
      refused_runs

-- Two dispatches of one decision, with a release between them.
abbrev attempts : List Invocation
attempts =
    Invocation.claim call (record { decision_id = "dec-1"; token = "exe_1" })
    ∷ Invocation.dispatch call fenced
    ∷ Invocation.advance call
        (record { decision_id = "dec-1"; token = "exe_1"; to = ClaimState.released })
    ∷ Invocation.dispatch call fenced
    ∷ []

dispatched_at_most_once_example :
    let w =
      invoke_all memory_claim_store simulated_adapter
        (one_decision, record { dispatched = []; inner = new_simulated_adapter })
        attempts in
    (dispatches "dec-1" w.1 ≤ 1)
    × (dispatches "dec-1" w.1 ≢ 0 → used (memory_claim_of w.0 "dec-1") ≡ true)
dispatched_at_most_once_example =
    dispatched_at_most_once memory_claim_store simulated_adapter memory_claim_of
      memory_claim_store-laws "dec-1" one_decision new_simulated_adapter attempts

abbrev requests : List Request
requests = Request.dispatched false sent ∷ Request.dispatched false sent ∷ []

simulated_at_most_once_example :
    mutations_of (serve_all new_simulated_adapter requests) "sentrygate.exec.v1:dec-1" ≤ 1
simulated_at_most_once_example = simulated_at_most_once requests "sentrygate.exec.v1:dec-1"

simulated_once_runs :
    mutations_of (serve_all new_simulated_adapter requests) "sentrygate.exec.v1:dec-1" ≡ 1
unfolding mutations_of serve_all lookup serve dispatch insert
simulated_once_runs = refl

-- The target was asked before anything reached it, and the dispatch comes late.
reconcile_runs :
    (reconcile (serve_all new_simulated_adapter []) false sent).1.status ≡ OutcomeStatus.failure
unfolding reconcile serve_all lookup
reconcile_runs = refl

reconcile_whole :
    (reconcile (serve_all new_simulated_adapter []) false sent).1.partially_applied ≡ false
unfolding reconcile serve_all lookup
reconcile_whole = refl

reconcile_failure_final_example :
    mutations_of
      (serve_all (reconcile (serve_all new_simulated_adapter []) false sent).0 requests)
      "sentrygate.exec.v1:dec-1"
    ≡ 0
reconcile_failure_final_example =
    reconcile_failure_final [] requests false sent reconcile_runs reconcile_whole
