-- ===== src/Workflows/Simulated/Consistent.antt =====
-- The requests that the simulated adapter serves, and what its records must agree on: the lemmas on
-- each request.
use sentry_gate_ai.Contracts.{
  ctx_err, failing_node_id, lost_response_node_id, unreachable_node_id, partitioned_node_id,
  DispatchRequest, DispatchOutcome, OutcomeStatus,
}
use sentry_gate_ai.Prelude.Assoc.{lookup-insert, lookup}
use sentry_gate_ai.Workflows.Simulated.{
  new_simulated_adapter, success_outcome, dispatch_to, SimulatedAdapter, mutations_of, counter,
  apply, fence, failure_outcome, dispatch, reconcile, compensate,
}
use sentry_gate_ai.Prelude.{
  refl, Bool-cases, inl, inr, ◌==◌, ◌||◌, Option-cases, String, ◌+◌, ◌≤◌, ◌≡◌, Bool, true, false,
  List, [], ◌∷◌, none, some, arith, eq_iff,
}

pub data Request : Type 0 where
  dispatched reconciled compensated : Bool → DispatchRequest → Request

unfoldable pub serve : SimulatedAdapter → Request → SimulatedAdapter
serve s (dispatched ended req) = (dispatch s ended req).0
serve s (reconciled ended req) = (reconcile s ended req).0
serve s (compensated ended req) = (compensate s ended req).0

unfoldable pub serve_all : SimulatedAdapter → List Request → SimulatedAdapter
serve_all s [] = s
serve_all s (r ∷ rs) = serve_all (serve s r) rs

-- A key that took effect has that effect on record, and took effect once.
pub record IsConsistent (s : SimulatedAdapter) : Type 0 where
  pub unseen : (key : String) → lookup key s.effects ≡ none → mutations_of s key ≡ 0
  pub once : (key : String) → mutations_of s key ≤ 1
  pub whole_failure :
      (key : String) (o : DispatchOutcome)
      → lookup key s.effects ≡ some o
      → o.status ≡ OutcomeStatus.failure
      → o.partially_applied ≡ false
      → mutations_of s key ≡ 0

apply-IsConsistent :
    (s : SimulatedAdapter) (key : String) (o : DispatchOutcome)
    → lookup key s.effects ≡ none
    → (o.status ≡ OutcomeStatus.failure → o.partially_applied ≡ true)
    → IsConsistent s
    → IsConsistent (apply s key o).0
unfolding apply mutations_of
apply-IsConsistent s key o new partial v = record {
  unseen = λ k e. ground (
    arith,
    lookup-insert key k o s.effects,
    lookup-insert key k (counter s.mutations key + 1) s.mutations,
    v.unseen k,
  );
  once = λ k. ground (
    arith,
    lookup-insert key k (counter s.mutations key + 1) s.mutations,
    v.once k,
    v.unseen key new,
  );
  whole_failure = λ k x e f p. ground (
    arith,
    lookup-insert key k o s.effects,
    lookup-insert key k (counter s.mutations key + 1) s.mutations,
    v.whole_failure k x,
  );
}

fence-IsConsistent :
    (s : SimulatedAdapter) (key detail : String)
    → lookup key s.effects ≡ none
    → IsConsistent s
    → IsConsistent (fence s key detail).0
unfolding fence mutations_of
fence-IsConsistent s key detail new v = record {
  unseen = λ k e.
      ground (arith, lookup-insert key k (failure_outcome false detail) s.effects, v.unseen k);
  once = v.once;
  whole_failure = λ k x e f p. ground (
    arith,
    lookup-insert key k (failure_outcome false detail) s.effects,
    v.whole_failure k x,
    v.unseen key new,
    eq_iff key k,
  );
}

dispatch_to-IsConsistent :
    (s : SimulatedAdapter) (key target : String)
    → lookup key s.effects ≡ none
    → IsConsistent s
    → IsConsistent (dispatch_to s key target).0
unfolding dispatch_to
dispatch_to-IsConsistent s key target new v =
    let partial =
      failure_outcome true "simulated: change partly applied, then rejected by target" in
    let done = success_outcome "simulated: change applied" in
    elim (Bool-cases (target == failing_node_id)) [
      | inl failing ↦ rw failing (apply-IsConsistent s key partial new (λ _. refl) v)
      | inr other ↦ elim (Bool-cases (target == lost_response_node_id)) [
        | inl lost ↦ rw (other, lost) (apply-IsConsistent s key done new (λ e. cc) v)
        | inr third ↦
            elim (Bool-cases (target == unreachable_node_id || target == partitioned_node_id)) [
              | inl away ↦ rw (other, third, away) v
              | inr reached ↦
                  rw (other, third, reached) (apply-IsConsistent s key done new (λ e. cc) v)
            ]
      ]
    ]

-- Every request keeps the record consistent.
pub serve-IsConsistent :
    (s : SimulatedAdapter) (r : Request) → IsConsistent s → IsConsistent (serve s r)
unfolding serve dispatch reconcile compensate mutations_of ctx_err
serve-IsConsistent s (dispatched ended req) v =
    elim (Option-cases (lookup req.idempotency_key s.effects)) [
      | inr (o, old) ↦ rw (old, serve, dispatch) v
      | inl new ↦ elim (Bool-cases ended) [
        | inl late ↦
            rw (new, late, serve, dispatch)
              (fence-IsConsistent s req.idempotency_key
                "simulated: not sent, context ended before dispatch; key fenced" new v)
        | inr live ↦
            rw (new, live, serve, dispatch)
              (dispatch_to-IsConsistent s req.idempotency_key req.proposal.target_id new v)
      ]
    ]
serve-IsConsistent s (reconciled true req) v = v
serve-IsConsistent s (reconciled false req) v =
    elim (Option-cases (lookup req.idempotency_key s.effects)) [
      | inr (o, old) ↦ rw (old, serve, reconcile) v
      | inl new ↦ elim (Bool-cases (req.proposal.target_id == partitioned_node_id)) [
        | inl away ↦ rw (new, serve, reconcile) (rw away v)
        | inr reached ↦
            rw (new, serve, reconcile)
              (rw reached (
                fence-IsConsistent s req.idempotency_key
                  "simulated: target has no record of this key; key fenced so it cannot take effect later"
                  new v))
      ]
    ]
serve-IsConsistent s (compensated true req) v = v
serve-IsConsistent s (compensated false req) v = record {
  unseen = v.unseen;
  once = v.once;
  whole_failure = v.whole_failure;
}

pub serve_all-IsConsistent :
    (s : SimulatedAdapter) (rs : List Request) → IsConsistent s → IsConsistent (serve_all s rs)
unfolding serve_all
serve_all-IsConsistent s [] v = v
serve_all-IsConsistent s (r ∷ rs) v =
    serve_all-IsConsistent (serve s r) rs (serve-IsConsistent s r v)

pub new-IsConsistent : IsConsistent new_simulated_adapter
unfolding mutations_of lookup
new-IsConsistent = record {
  unseen = λ key e. refl;
  once = λ key. omega arith;
  whole_failure = λ key o e f p. refl;
}
