-- ===== src/Workflows/Fence.antt =====
-- The execution fence: what `DispatchConfig` has done when it returns an outcome, and when it
-- returns an error, over any claim store that keeps its laws.
use sentry_gate_ai.Decision.Claim.Key.{may_advance-executing}
use sentry_gate_ai.Prelude.{
  ◌∙◌, Option-cases, refl, ◌≢◌, Bool-cases, ◌||◌, String, ◌≡◌, ◌⊎◌, true, Option, none, some, arith,
  ◌==◌, eq_iff, inl, inr,
}
use sentry_gate_ai.Contracts.{
  errors_is, claim_not_held, ClaimOwner, Error, Result, ok, err, Time, ClaimState, ExecutionClaim,
  DispatchOutcome, FencedDispatch, checked,
}
use sentry_gate_ai.Workflows.Activities.{
  fence_refused, fence_unknown, fence_rejected, Call, ActivityError, application,
  fence_rejected_type, fence_unknown_type, claim_owner, InfrastructureActivities, after_fence,
  dispatch_config,
}
use sentry_gate_ai.Decision.Claim.{ClaimStore, execution_key}
use sentry_gate_ai.Decision.Claim.Contract.{Advances, ClaimStoreLaws}
use sentry_gate_ai.Workflows.Adapter.{Adapter}

-- The type of an application error.
abbrev pub error_type : ActivityError → Option String
error_type (application _ t _) = some t
error_type _ = none

types_differ : fence_unknown_type ≢ fence_rejected_type
types_differ e = ground (arith, eq_iff fence_unknown_type fence_rejected_type)

fence_refused-typed :
    (owner : ClaimOwner) (e : Error) (answer : Result Error ExecutionClaim)
    → let x = fence_refused owner e answer in
      (error_type x ≡ some fence_rejected_type) ⊎ (error_type x ≡ some fence_unknown_type)
unfolding fence_refused
fence_refused-typed owner e (ok c) = ground arith
fence_refused-typed owner e (err x) = ground arith

module _ {S A : Type 0} (store : ClaimStore S) (ad : Adapter A)
    (claim_of : S → String → Option ExecutionClaim) {stamp : Time → Time}
    (laws : ClaimStoreLaws S store claim_of stamp) (call : Call) (req : FencedDispatch) (s : S)
    (a : A) where
  abbrev pub activities : InfrastructureActivities S A
  activities = record { adapter = some ad; claims = some store }

  -- `DispatchConfig` in the state `(s, a)`: the new store, the new infrastructure, the result.
  abbrev pub run_dispatch : (S × A) × Result ActivityError DispatchOutcome
  run_dispatch = dispatch_config activities call req (s, a)

  -- The adapter was called, once, after this run's claim moved from CLAIMED to EXECUTING.
  pub record IsDispatched (o : DispatchOutcome) : Type 0 where
    pub fenced :
        Advances
          (claim_owner call req.token)
          ClaimState.executing
          (stamp call.now)
          (claim_of s req.decision_id)
          (claim_of run_dispatch.0.0 req.decision_id)
    pub from_claimed : fenced.from.state ≡ ClaimState.claimed
    pub key : req.dispatch.idempotency_key ≡ execution_key req.decision_id
    pub adapter_called : run_dispatch.0.1 ≡ (ad.dispatch a call.ended_third req.dispatch).0
    pub outcome : o ≡ checked (ad.dispatch a call.ended_third req.dispatch).1

  -- The adapter was not called; after a definite refusal the claim is as it was.
  pub record IsRefused (e : ActivityError) : Type 0 where
    pub adapter_untouched : run_dispatch.0.1 ≡ a
    pub typed : (error_type e ≡ some fence_rejected_type) ⊎ (error_type e ≡ some fence_unknown_type)
    pub claim_kept :
        error_type e ≡ some fence_rejected_type
        → claim_of run_dispatch.0.0 req.decision_id ≡ claim_of s req.decision_id

  abbrev pub advance : S × Option Error
  advance =
      store.advance_claim s call.ended req.decision_id (claim_owner call req.token)
        ClaimState.executing call.now

  -- A guard refuses the request, or the compare-and-set is made.
  dispatch_cases :
      ((msg : String) × (run_dispatch ≡ ((s, a), err (fence_rejected msg none))))
      ⊎ ((req.dispatch.idempotency_key ≡ execution_key req.decision_id)
          × (run_dispatch ≡ after_fence store ad call req advance.0 a advance.1))
  unfolding dispatch_config
  dispatch_cases = elim (Bool-cases (req.decision_id == "" || req.token == "")) [
    | inl missing ↦ inl ("request is missing the decision ID or claim token", rw missing)
    | inr complete ↦
        elim (Bool-cases (req.dispatch.idempotency_key == execution_key req.decision_id)) [
          | inl same ↦ inr ((eq_iff _ _).0 same, rw (complete, same))
          | inr other ↦
              inl ("idempotency key does not belong to the fenced decision", rw (complete, other))
        ]
  ]

  after_fence-typed :
      (e : Error)
      → (x : ActivityError) × (after_fence store ad call req advance.0 a (some e)
          ≡ ((advance.0, a), err x))
        × ((error_type x ≡ some fence_rejected_type) ⊎ (error_type x ≡ some fence_unknown_type))
        × (error_type x ≡ some fence_rejected_type → errors_is e claim_not_held ≡ true)
  unfolding after_fence
  after_fence-typed e = elim (Bool-cases (errors_is e claim_not_held)) [
    | inl refused ↦
        let answer = store.get_claim advance.0 call.ended_second req.decision_id in
        (
          fence_refused (claim_owner call req.token) e answer,
          rw refused,
          fence_refused-typed (claim_owner call req.token) e answer,
          λ _. refused,
        )
    | inr failed ↦ (
      fence_unknown "execution fence write failed and may have committed" (some e),
      rw failed,
      inr refl,
      λ h. absurd (types_differ (ground arith)),
    )
  ]

  -- The claim store is as it was, or as the compare-and-set left it.
  pub store-dispatch_config : (run_dispatch.0.0 ≡ s) ⊎ (run_dispatch.0.0 ≡ advance.0)
  unfolding after_fence
  store-dispatch_config = elim dispatch_cases [
    | inl (msg, e) ↦ inl (rw e)
    | inr (key, e) ↦ inr (ground (arith, e))
  ]

  dispatch_acquired :
      run_dispatch ≡ after_fence store ad call req advance.0 a advance.1
      → advance.1 ≡ none
      → let (a', o) = ad.dispatch a call.ended_third req.dispatch in
        run_dispatch ≡ ((advance.0, a'), ok (checked o))
  unfolding after_fence
  dispatch_acquired e p = e ∙ rw p

  -- When `DispatchConfig` returns an outcome, the run's claim moved from CLAIMED to EXECUTING, the
  -- key was the decision's, and the adapter was called once with the request.
  pub dispatch_config-IsDispatched : (o : DispatchOutcome) → run_dispatch.1 ≡ ok o → IsDispatched o
  dispatch_config-IsDispatched o h = elim dispatch_cases [
    | inl (msg, e) ↦ absurd (ground (arith, e))
    | inr (key, e) ↦ elim (Option-cases advance.1) [
      | inl p ↦
          let done = dispatch_acquired e p in
          let moved =
            laws.advance_done s call.ended req.decision_id (claim_owner call req.token)
              ClaimState.executing call.now p in
          let fenced : Advances (claim_owner call req.token) ClaimState.executing (stamp call.now)
              (claim_of s req.decision_id) (claim_of run_dispatch.0.0 req.decision_id) =
            rw done moved in
          record {
            fenced = fenced;
            from_claimed = may_advance-executing fenced.from.state fenced.permitted;
            key = key;
            adapter_called = rw done;
            outcome = ground (arith, done);
          }
      | inr (x, p) ↦
          let (y, refused, _, _) = after_fence-typed x in absurd (ground (arith, e, p, refused))
    ]
  ]

  -- When it returns an error, the adapter was not called, the error has one of the two fence types,
  -- and after EXECUTION_FENCE_REJECTED the claim is unchanged.
  pub dispatch_config-IsRefused : (e : ActivityError) → run_dispatch.1 ≡ err e → IsRefused e
  dispatch_config-IsRefused e h = elim dispatch_cases [
    | inl (msg, p) ↦ record {
      adapter_untouched = rw p;
      typed = inl (ground (arith, p));
      claim_kept = λ _. rw p;
    }
    | inr (key, p) ↦ elim (Option-cases advance.1) [
      | inl q ↦ absurd (ground (arith, dispatch_acquired p q))
      | inr (x, q) ↦
          let (y, refused, typed, definite) = after_fence-typed x in
          let whole : run_dispatch ≡ ((advance.0, a), err y) = ground (arith, p, q, refused) in
          let same : y ≡ e = ground (arith, whole) in
          record {
            adapter_untouched = rw whole;
            typed = rw same at typed;
            claim_kept = λ t. rw whole (
                laws.advance_refused s call.ended req.decision_id (claim_owner call req.token)
                  ClaimState.executing call.now x q (definite (rw same t)));
          }
    ]
  ]
