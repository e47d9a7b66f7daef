-- ===== src/Workflows/Simulated/Effects.antt =====
-- The simulated adapter keeps the adapter contract: a key takes effect at most once, a recorded
-- effect is final, and a key reported as FAILURE without a partial effect never takes effect.
use sentry_gate_ai.Workflows.Simulated.Consistent.{
  Request, dispatched, reconciled, compensated, serve, serve_all, serve-IsConsistent,
  serve_all-IsConsistent, new-IsConsistent,
}
use sentry_gate_ai.Contracts.{ctx_err, DispatchRequest, DispatchOutcome, OutcomeStatus}
use sentry_gate_ai.Prelude.Assoc.{lookup-insert_self, lookup-insert, insert, lookup}
use sentry_gate_ai.Workflows.Simulated.{
  new_simulated_adapter, success_outcome, SimulatedAdapter, mutations_of, fence, failure_outcome,
  dispatch, reconcile, compensate,
}
use sentry_gate_ai.Prelude.{
  inl, inr, Option-cases, String, ◌≤◌, ◌≡◌, Bool, true, false, List, [], ◌∷◌, none, some, arith,
  eq_iff,
}

-- Recording the effect of a new key leaves the other effects alone.
insert-recorded :
    (s : SimulatedAdapter) (new key : String) (x o : DispatchOutcome)
    → lookup new s.effects ≡ none
    → lookup key s.effects ≡ some o
    → lookup key (insert new x s.effects) ≡ some o
insert-recorded s new key x o fresh e =
    ground (arith, lookup-insert new key x s.effects, eq_iff new key)

-- A recorded effect is final.
serve-recorded :
    (s : SimulatedAdapter) (r : Request) (key : String) (o : DispatchOutcome)
    → lookup key s.effects ≡ some o
    → lookup key (serve s r).effects ≡ some o
unfolding serve dispatch reconcile compensate ctx_err
serve-recorded s (dispatched ended req) key o e =
    elim (Option-cases (lookup req.idempotency_key s.effects)) [
      | inr (x, old) ↦ rw (old, serve, dispatch) e
      | inl new ↦
          let kept = λ (x : DispatchOutcome). insert-recorded s req.idempotency_key key x o new e in
          ground (
            arith,
            new,
            kept (
                failure_outcome false
                  "simulated: not sent, context ended before dispatch; key fenced"),
            kept (failure_outcome true "simulated: change partly applied, then rejected by target"),
            kept (success_outcome "simulated: change applied"),
          )
    ]
serve-recorded s (reconciled true req) key o e = e
serve-recorded s (reconciled false req) key o e =
    elim (Option-cases (lookup req.idempotency_key s.effects)) [
      | inr (x, old) ↦ rw (old, serve, reconcile) e
      | inl new ↦ ground (
        arith,
        new,
        insert-recorded s req.idempotency_key key
            (failure_outcome false
              "simulated: target has no record of this key; key fenced so it cannot take effect later")
            o new e,
      )
    ]
serve-recorded s (compensated true req) key o e = e
serve-recorded s (compensated false req) key o e = e

serve_all-recorded :
    (s : SimulatedAdapter) (rs : List Request) (key : String) (o : DispatchOutcome)
    → lookup key s.effects ≡ some o
    → lookup key (serve_all s rs).effects ≡ some o
unfolding serve_all
serve_all-recorded s [] key o e = e
serve_all-recorded s (r ∷ rs) key o e =
    serve_all-recorded (serve s r) rs key o (serve-recorded s r key o e)

-- From a new adapter, whatever requests arrive, each key takes effect at most once.
pub simulated_at_most_once :
    (rs : List Request) (key : String) → mutations_of (serve_all new_simulated_adapter rs) key ≤ 1
simulated_at_most_once rs key =
    (serve_all-IsConsistent new_simulated_adapter rs new-IsConsistent).once key

reconcile_fenced :
    (s : SimulatedAdapter) (ended : Bool) (req : DispatchRequest)
    → (reconcile s ended req).1.status ≡ OutcomeStatus.failure
    → lookup req.idempotency_key (reconcile s ended req).0.effects ≡ some (reconcile s ended req).1
unfolding reconcile ctx_err fence
reconcile_fenced s true req h = ground (arith, h)
reconcile_fenced s false req h = elim (Option-cases (lookup req.idempotency_key s.effects)) [
  | inr (o, old) ↦ ground (arith, old)
  | inl new ↦ ground (
    arith,
    new,
    lookup-insert_self req.idempotency_key
        (failure_outcome false
          "simulated: target has no record of this key; key fenced so it cannot take effect later")
        s.effects,
  )
]

-- After `Reconcile` reported FAILURE with no partial effect for a key, the key has not taken effect
-- and no later request makes it: a late dispatch is refused.
pub reconcile_failure_final :
    (before after : List Request) (ended : Bool) (req : DispatchRequest)
    → let s = serve_all new_simulated_adapter before in
      (reconcile s ended req).1.status ≡ OutcomeStatus.failure
      → (reconcile s ended req).1.partially_applied ≡ false
      → mutations_of (serve_all (reconcile s ended req).0 after) req.idempotency_key ≡ 0
unfolding serve
reconcile_failure_final before after ended req failed whole =
    let s = serve_all new_simulated_adapter before in
    let v = serve_all-IsConsistent new_simulated_adapter before new-IsConsistent in
    let x = (reconcile s ended req).1 in
    let later =
      serve_all-IsConsistent (reconcile s ended req).0 after
        (serve-IsConsistent s (reconciled ended req) v) in
    later.whole_failure req.idempotency_key x
      (serve_all-recorded (reconcile s ended req).0 after req.idempotency_key x
        (reconcile_fenced s ended req failed))
      failed whole
