-- ===== src/Tests/Saga.antt =====
-- The properties of the workflow in a world where the dispatch times out and the adapter confirms
-- the success when it is asked.
use sentry_gate_ai.Workflows.Saga.Phases.{reconcile_fuel, reconcile_loop, Run, fenced_request}
use sentry_gate_ai.Prelude.{
  ℕ, zero, suc, ◌+◌, true, false, List, [], ◌∷◌, ◌++◌, none, some, ◌≡◌, refl,
}
use sentry_gate_ai.Contracts.{Time, ok, err, ReasonCode, Verdict, OutcomeStatus}
use sentry_gate_ai.Workflows.Saga.{Command, Reply, World, Event, events, result}
use sentry_gate_ai.Workflows.Saga.Phases.Before.{saga}
use sentry_gate_ai.Workflows.Saga.Ledger.{empty_ledger, observe_all, Permitted, Closes}
use sentry_gate_ai.Workflows.Saga.Runs.{saga_guarded, saga-Closes}
use sentry_gate_ai.Tests.{digest, request}

abbrev run : Run
run = record { workflow_id = "wf-1"; run_id = "run-1"; req = request }

-- The state is the time.
abbrev answer : Time → (c : Command) → Reply c
answer s Command.now = s
answer s (Command.sleep d) = none
answer s Command.random_text = ok "1"
answer s (Command.verify_ingress _) =
    ok (record { valid = true; reason = ReasonCode.unset; detail = "" })
answer s (Command.claim _) = ok (record { claimed = true; reason = ReasonCode.unset; detail = "" })
answer s (Command.evaluate _) = ok (record {
  verdict = Verdict.allow;
  reasons = ReasonCode.environment_allowed ∷ [];
  environment = "dev";
  policy_version = "1";
  policy_digest = "";
})
answer s (Command.record_decision _) = none
answer s (Command.audit _) = none
answer s (Command.advance _) = none
answer s (Command.dispatch _) = err (record { message = "timeout"; type = none })
answer s (Command.reconcile _) =
    ok (record { status = OutcomeStatus.success; partially_applied = false; detail = "" })
answer s (Command.compensate _) = none

abbrev elapsed : Command → ℕ
elapsed (Command.sleep d) = d
elapsed _ = 0

abbrev world : World Time
world s c = (s + elapsed c, answer s c)

abbrev first : ℕ → List Event → List Event
first zero es = []
first (suc n) [] = []
first (suc n) (e ∷ es) = e ∷ first n es

abbrev rest : ℕ → List Event → List Event
rest zero es = es
rest (suc n) [] = []
rest (suc n) (e ∷ es) = rest n es

-- The eight requests before the dispatch.
abbrev prepared : List Event
prepared = first 8 (events world 5 (saga digest run))

abbrev dispatched : Event
dispatched = record {
  command = Command.dispatch (fenced_request run "exe_1");
  reply = err (record { message = "timeout"; type = none });
}

run_splits :
    events world 5 (saga digest run)
    ≡ prepared ++ dispatched ∷ rest 9 (events world 5 (saga digest run))
unfolding events saga
run_splits = refl

saga_guarded_example :
    Permitted run
      (observe_all empty_ledger prepared)
      (Command.dispatch (fenced_request run "exe_1"))
saga_guarded_example =
    saga_guarded digest world run 5 prepared dispatched (rest 9 (events world 5 (saga digest run)))
      run_splits

run_succeeds : result world 5 (saga digest run) ≡ some none
unfolding result saga reconcile_loop reconcile_fuel
run_succeeds = refl

saga-Closes_example : Closes (observe_all empty_ledger (events world 5 (saga digest run))) none
saga-Closes_example = saga-Closes digest world run 5 none run_succeeds
