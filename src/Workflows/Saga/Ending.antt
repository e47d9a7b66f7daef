-- ===== src/Workflows/Saga/Ending.antt =====
-- The reconciliation loop of the workflow ends: its fuel suffices if the clock moves on while a timer
-- runs.
use sentry_gate_ai.Contracts.{Time, DispatchOutcome, DispatchRequest}
use sentry_gate_ai.Workflows.Saga.Phases.{
  reconcile_loop, reconcile_dispatch, reconcile_fuel, reconcile_first_wait, reconcile_max_wait,
  reconcile_window, is_unknown, reconciled, min, after_sleep,
}
use sentry_gate_ai.Workflows.Saga.{
  Reply, WorkflowError, TaskError, Workflow, Command, World, result,
}
use sentry_gate_ai.Prelude.{
  Bool, none, some, true, false, if◌then◌else◌, not, ℕ, zero, suc, ◌+◌, ◌-◌, ◌*◌, ◌≤◌, ◌<◌, Option,
  ◌≡◌, ◌≢◌, refl, arith, ltb,
}

module _ {S : Type 0} (world : World S) where
  abbrev pub Ends : S → Workflow → Type 0
  Ends s w = result world s w ≢ none

  pub finish-Ends : (s : S) (e : Option WorkflowError) → Ends s (Workflow.finish e)
  unfolding result
  finish-Ends s e h = ground (arith, h)

  pub ask-Ends :
      (s : S) (c : Command) (next : Reply c → Workflow)
      → ((s' : S) (x : Reply c) → Ends s' (next x))
      → Ends s (Workflow.ask c next)
  unfolding result
  ask-Ends s c next h = h (world s c).0 (world s c).1

  pub after_sleep-Ends :
      (s : S) (x : Option TaskError) (stop again : Workflow)
      → Ends s stop
      → (x ≡ none → Ends s again)
      → Ends s (after_sleep x stop again)
  after_sleep-Ends s none stop again a b = b refl
  after_sleep-Ends s (some e) stop again a b = a

  pub if-Ends :
      (s : S) (b : Bool) (x y : Workflow)
      → (b ≡ true → Ends s x)
      → (b ≡ false → Ends s y)
      → Ends s (if b then x else y)
  if-Ends s true x y a b = a refl
  if-Ends s false x y a b = b refl

module _ {S : Type 0} (world : World S) (clock : S → Time) where
  -- Time does not run backwards, `workflow.Now` reads the clock, and a timer that fires has lasted.
  pub record HonestClock : Type 0 where
    pub forward : (s : S) (c : Command) → clock s ≤ clock (world s c).0
    pub reads : (s : S) → (world s Command.now).1 ≡ clock s
    pub lasts :
        (s : S) (d : ℕ)
        → (world s (Command.sleep d)).1 ≡ none
        → clock s + d ≤ clock (world s (Command.sleep d)).0

module _ {S : Type 0} (world : World S) (clock : S → Time) (honest : HonestClock world clock) where
  -- One round of the loop: it ends, or the timer lasted and the loop goes on.
  round-Ends :
      (fuel : ℕ) (s : S) (dreq : DispatchRequest) (start wait : ℕ)
      (next : DispatchOutcome → Workflow)
      → ((s' : S) (o : DispatchOutcome) → Ends world s' (next o))
      → ((s' : S) (at : ℕ)
          → clock s ≤ at
          → at - start + wait ≤ reconcile_window
          → at + wait ≤ clock s'
          → Ends world s' (reconcile_loop fuel dreq start (min (2 * wait) reconcile_max_wait) next))
      → Ends world s (reconcile_loop (suc fuel) dreq start wait next)
  unfolding reconcile_loop result
  round-Ends fuel s dreq start wait next h again =
      let told = world s (Command.reconcile dreq) in
      let o = reconciled told.1 in
      let read = world told.0 Command.now in
      let slept = world read.0 (Command.sleep wait) in
      if-Ends world told.0 (not (is_unknown o.status)) _ _ (λ _. h told.0 o)
        (λ _.
          if-Ends world read.0 (ltb reconcile_window (read.1 - start + wait)) _ _ (λ _. h read.0 o)
            (λ early. after_sleep-Ends world slept.0 slept.1 _ _ (h slept.0 o) (λ fired.
              again slept.0 read.1
                (ground (arith, honest.forward s (Command.reconcile dreq), honest.reads told.0))
                (ground (arith, early))
                (ground (
                  arith,
                  honest.reads told.0,
                  honest.forward told.0 Command.now,
                  honest.lasts read.0 wait fired,
                )))))

  reconcile_loop-Ends :
      (fuel : ℕ) (s : S) (dreq : DispatchRequest) (start wait : ℕ)
      (next : DispatchOutcome → Workflow)
      → start ≤ clock s
      → reconcile_first_wait ≤ wait
      → reconcile_window + start < clock s + (fuel + 1) * reconcile_first_wait
      → ((s' : S) (o : DispatchOutcome) → Ends world s' (next o))
      → Ends world s (reconcile_loop (suc fuel) dreq start wait next)
  reconcile_loop-Ends zero s dreq start wait next begun long enough h =
      round-Ends zero s dreq start wait next h (λ s' at a b c. absurd (omega arith))
  reconcile_loop-Ends (suc fuel) s dreq start wait next begun long enough h =
      round-Ends (suc fuel) s dreq start wait next h (λ s' at a b c.
        reconcile_loop-Ends fuel s' dreq start (min (2 * wait) reconcile_max_wait) next
          (omega arith) (ground arith) (omega arith) h)

  pub reconcile_dispatch-Ends :
      (s : S) (dreq : DispatchRequest) (next : DispatchOutcome → Workflow)
      → ((s' : S) (o : DispatchOutcome) → Ends world s' (next o))
      → Ends world s (reconcile_dispatch dreq next)
  unfolding reconcile_dispatch reconcile_fuel result
  reconcile_dispatch-Ends s dreq next h =
      let read = world s Command.now in
      reconcile_loop-Ends 8640 read.0 dreq read.1 reconcile_first_wait next
        (ground (arith, honest.reads s, honest.forward s Command.now)) (omega arith)
        (ground (arith, honest.reads s, honest.forward s Command.now)) h
