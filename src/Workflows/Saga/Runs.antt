-- ===== src/Workflows/Saga/Runs.antt =====
-- What holds in every run of the workflow, whatever Temporal and the activities answer.
use sentry_gate_ai.Prelude.{String, ℕ, List, [], ◌∷◌, ◌++◌, Option, some, ◌≡◌, arith, subst}
use sentry_gate_ai.Workflows.Saga.{WorkflowError, Workflow, World, Event, events, result}
use sentry_gate_ai.Workflows.Saga.Phases.{Run}
use sentry_gate_ai.Workflows.Saga.Phases.Before.{saga}
use sentry_gate_ai.Workflows.Saga.Ledger.{
  Ledger, empty_ledger, observe, observe_all, Permitted, Closes, Obeys,
}
use sentry_gate_ai.Workflows.Saga.Start.{saga-Obeys}

-- Everything that is asked in a run is permitted by what was observed before.
pub data IsGuarded (run : Run) : Ledger → List Event → Type 0 where
  guarded_nil : (l : Ledger) → IsGuarded run l []
  guarded_cons :
      (l : Ledger) (e : Event) (es : List Event)
      → Permitted run l e.command
      → IsGuarded run (observe l e.command e.reply) es
      → IsGuarded run l (e ∷ es)

module _ {S : Type 0} (world : World S) (run : Run) where
  Obeys-IsGuarded :
      (w : Workflow) (l : Ledger) (s : S) → Obeys run l w → IsGuarded run l (events world s w)
  unfolding events
  Obeys-IsGuarded (Workflow.finish e) l s o = guarded_nil l
  Obeys-IsGuarded Workflow.out_of_fuel l s o = guarded_nil l
  Obeys-IsGuarded (Workflow.ask c next) l s (permitted, rest) =
      let answer = world s c in
      guarded_cons l (record { command = c; reply = answer.1 }) _ permitted
        (Obeys-IsGuarded (next answer.1) (observe l c answer.1) answer.0 (rest answer.1))

  Obeys-Closes :
      (w : Workflow) (l : Ledger) (s : S) (e : Option WorkflowError)
      → Obeys run l w
      → result world s w ≡ some e
      → Closes (observe_all l (events world s w)) e
  unfolding events result observe_all
  Obeys-Closes (Workflow.finish x) l s e o h = subst (Closes l) (ground (arith, h)) o
  Obeys-Closes Workflow.out_of_fuel l s e o h = absurd (ground (arith, h))
  Obeys-Closes (Workflow.ask c next) l s e (permitted, rest) h =
      let answer = world s c in
      Obeys-Closes (next answer.1) (observe l c answer.1) answer.0 e (rest answer.1) h

guarded_at :
    (run : Run) (l : Ledger) (before : List Event) (e : Event) (after : List Event)
    → IsGuarded run l (before ++ e ∷ after)
    → Permitted run (observe_all l before) e.command
unfolding observe_all
guarded_at run l [] e after (guarded_cons l' x xs p g) = p
guarded_at run l (b ∷ before) e after (guarded_cons l' x xs p g) =
    guarded_at run (observe l b.command b.reply) before e after g

module _ {S : Type 0} (sha256_hex : List ℕ → String) (world : World S) (run : Run) (s : S) where
  -- In every run, whatever Temporal and the activities answer, each request of the workflow is
  -- permitted by the replies before it: it dispatches only after a valid ingress decision, the claim
  -- granted to the token that it presents, an ALLOW that is recorded and audited, and no release and
  -- no earlier dispatch; it releases only if nothing was dispatched or the fence was not acquired; it
  -- marks the claim COMPLETED, FAILED or RECONCILIATION_REQUIRED only after the outcome says so; it
  -- reconciles only an unknown outcome, and compensates once, only a failure that was partly applied.
  pub saga_guarded :
      (before : List Event) (e : Event) (after : List Event)
      → events world s (saga sha256_hex run) ≡ before ++ e ∷ after
      → Permitted run (observe_all empty_ledger before) e.command
  saga_guarded before e after h = guarded_at run empty_ledger before e after (
      subst (IsGuarded run empty_ledger) h (
        Obeys-IsGuarded world run (saga sha256_hex run) empty_ledger s (saga-Obeys run sha256_hex)))

  -- When the workflow returns: success only if the last outcome is SUCCESS and the claim was marked
  -- COMPLETED; if nothing was dispatched, the release of a claim that it may hold was asked for; and
  -- if the last outcome is UNKNOWN and the dispatch was not fenced out, the error is
  -- DISPATCH_OUTCOME_UNKNOWN.
  pub saga-Closes :
      (e : Option WorkflowError)
      → result world s (saga sha256_hex run) ≡ some e
      → Closes (observe_all empty_ledger (events world s (saga sha256_hex run))) e
  saga-Closes e h =
      Obeys-Closes world run (saga sha256_hex run) empty_ledger s e (saga-Obeys run sha256_hex) h
