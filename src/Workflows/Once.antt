-- ===== src/Workflows/Once.antt =====
-- At most one dispatch for each ingress decision. Any number of workflow runs, retries, resets and
-- forged inputs are a list of activity invocations in some order, over one claim store and one
-- infrastructure whose dispatches are recorded.
use sentry_gate_ai.Workflows.Fence.{
  dispatch_config-IsRefused, store-dispatch_config, dispatch_config-IsDispatched,
}
use sentry_gate_ai.Prelude.{
  refl, ◌≢◌, sym, ◌∙◌, ◌||◌, false, String, ℕ, ◌≤◌, ◌≡◌, Bool, true, List, [], ◌∷◌, Option, none,
  some, arith, ◌==◌, eq_iff, inl, inr, Bool-cases,
}
use sentry_gate_ai.Contracts.{
  Result-cases, claim_state_eq, ClaimOwner, Time, ok, ClaimState, ExecutionClaim, ClaimRequest,
  ClaimTransition, DispatchRequest, DispatchOutcome, FencedDispatch,
}
use sentry_gate_ai.Decision.Claim.Key.{execution_key_inj, is_used, may_advance-used}
use sentry_gate_ai.Prelude.Lists.{count}
use sentry_gate_ai.Decision.Claim.{ClaimStore, execution_key}
use sentry_gate_ai.Decision.Claim.Contract.{IsFree, ClaimStoreLaws}
use sentry_gate_ai.Workflows.Adapter.{Adapter, Recorded, recording}
use sentry_gate_ai.Workflows.Activities.{
  Call, claim_owner, InfrastructureActivities, dispatch_config, reconcile_dispatch,
  revert_state_compensation, claim_execution, advance_execution_claim,
}

-- One activity invocation, with any execution info and any input.
pub data Invocation : Type 0 where
  claim : Call → ClaimRequest → Invocation
  advance : Call → ClaimTransition → Invocation
  dispatch : Call → FencedDispatch → Invocation
  reconcile : Call → DispatchRequest → Invocation
  compensate : Call → DispatchRequest → Invocation

module _ {S A : Type 0} (store : ClaimStore S) (ad : Adapter A) where
  abbrev pub worker : InfrastructureActivities S (Recorded A)
  worker = record { adapter = some (recording ad); claims = some store }

  -- The state after an invocation.
  unfoldable pub invoke : S × Recorded A → Invocation → S × Recorded A
  invoke (s, r) (claim call req) = ((claim_execution (some store) call req s).0, r)
  invoke (s, r) (advance call t) = ((advance_execution_claim (some store) call t s).0, r)
  invoke w (dispatch call req) = (dispatch_config worker call req w).0
  invoke w (reconcile call req) = (reconcile_dispatch worker call req w).0
  invoke w (compensate call req) = (revert_state_compensation worker call req w).0

  unfoldable pub invoke_all : S × Recorded A → List Invocation → S × Recorded A
  invoke_all w [] = w
  invoke_all w (i ∷ is) = invoke_all (invoke w i) is

-- How often the adapter was called with the key of decision `d`.
abbrev pub dispatches : {A : Type 0} → String → Recorded A → ℕ
dispatches d r = count (λ (q : DispatchRequest). q.idempotency_key == execution_key d) r.dispatched

abbrev pub used : Option ExecutionClaim → Bool
used none = false
used (some c) = is_used c.state

used_not_free : (c : Option ExecutionClaim) → IsFree c → used c ≡ true → ⊥
used_not_free none f u = cc
used_not_free (some c) f u = ground arith

module _ {S A : Type 0} (store : ClaimStore S) (ad : Adapter A)
    (claim_of : S → String → Option ExecutionClaim) {stamp : Time → Time}
    (laws : ClaimStoreLaws S store claim_of stamp) where
  -- The decision has not been dispatched, or once and then its claim is used up.
  pub record IsFenced (d : String) (w : S × Recorded A) : Type 0 where
    pub once : dispatches d w.1 ≤ 1
    pub spent : dispatches d w.1 ≡ 1 → used (claim_of w.0 d) ≡ true

  -- No operation of the store gives a used claim back.
  claim_execution-used :
      (s : S) (ended : Bool) (id : String) (owner : ClaimOwner) (at : Time) (d : String)
      → used (claim_of s d) ≡ true
      → used (claim_of (store.claim_execution s ended id owner at).0 d) ≡ true
  claim_execution-used s ended id owner at d u = elim (Bool-cases (id == d)) [
    | inl same ↦
        let e : id ≡ d = (eq_iff id d).0 same in
        elim (laws.claim_own s ended id owner at) [
          | inl kept ↦ rw (← e, kept, e) u
          | inr taken ↦ absurd (used_not_free (claim_of s id) taken.free (rw e u))
        ]
    | inr other ↦ rw (laws.claim_other s ended id owner at d (ground (arith, eq_iff id d))) u
  ]

  advance_claim-used :
      (s : S) (ended : Bool) (id : String) (owner : ClaimOwner) (to : ClaimState) (at : Time)
      (d : String)
      → used (claim_of s d) ≡ true
      → used (claim_of (store.advance_claim s ended id owner to at).0 d) ≡ true
  advance_claim-used s ended id owner to at d u = elim (Bool-cases (id == d)) [
    | inl same ↦
        let e : id ≡ d = (eq_iff id d).0 same in
        elim (laws.advance_own s ended id owner to at) [
          | inl kept ↦ rw (← e, kept, e) u
          | inr m ↦
              rw (← e, m.moved)
                (may_advance-used m.from.state to m.permitted (rw (← e, m.held) at u))
        ]
    | inr other ↦ rw (laws.advance_other s ended id owner to at d (ground (arith, eq_iff id d))) u
  ]

  kept :
      (d : String) (w w' : S × Recorded A)
      → IsFenced d w
      → (used (claim_of w.0 d) ≡ true → used (claim_of w'.0 d) ≡ true)
      → dispatches d w'.1 ≡ dispatches d w.1
      → IsFenced d w'
  kept d w w' f u e = record { once = rw e f.once; spent = λ h. u (f.spent (rw e at h)) }

  claim_activity-used :
      (call : Call) (req : ClaimRequest) (s : S) (d : String)
      → used (claim_of s d) ≡ true
      → used (claim_of (claim_execution (some store) call req s).0 d) ≡ true
  unfolding claim_execution
  claim_activity-used call req s d u =
      let after =
        claim_execution-used s call.ended req.decision_id (claim_owner call req.token) call.now d
          u in
      elim (Bool-cases (req.decision_id == "" || req.token == "")) [
        | inl missing ↦ rw missing u
        | inr complete ↦ rw complete after
      ]

  advance_activity-used :
      (call : Call) (t : ClaimTransition) (s : S) (d : String)
      → used (claim_of s d) ≡ true
      → used (claim_of (advance_execution_claim (some store) call t s).0 d) ≡ true
  unfolding advance_execution_claim
  advance_activity-used call t s d u =
      let after =
        advance_claim-used s call.ended t.decision_id (claim_owner call t.token) t.to call.now d
          u in
      elim (Bool-cases (claim_state_eq t.to ClaimState.executing)) [
        | inl fence ↦ rw fence u
        | inr other ↦ rw other after
      ]

  dispatch_activity-used :
      (call : Call) (req : FencedDispatch) (s : S) (r : Recorded A) (d : String)
      → used (claim_of s d) ≡ true
      → used (claim_of (dispatch_config (worker store ad) call req (s, r)).0.0 d) ≡ true
  dispatch_activity-used call req s r d u =
      elim (store-dispatch_config store (recording ad) claim_of laws call req s r) [
        | inl e ↦ rw e u
        | inr e ↦ rw e (
            advance_claim-used s call.ended req.decision_id (claim_owner call req.token)
              ClaimState.executing call.now d u)
      ]

  -- The one dispatch of decision `d`: its claim was CLAIMED before and is used up after.
  own_dispatch :
      (call : Call) (req : FencedDispatch) (s : S) (r : Recorded A) (d : String)
      (o : DispatchOutcome)
      → IsFenced d (s, r)
      → (dispatch_config (worker store ad) call req (s, r)).1 ≡ ok o
      → IsFenced d (dispatch_config (worker store ad) call req (s, r)).0
  own_dispatch call req s r d o f h =
      let x = dispatch_config-IsDispatched store (recording ad) claim_of laws call req s r o h in
      elim (Bool-cases (req.dispatch.idempotency_key == execution_key d)) [
        | inl same ↦
            let e : req.decision_id ≡ d =
              execution_key_inj req.decision_id d (sym x.key ∙ (eq_iff _ _).0 same) in
            let unspent : used (claim_of s d) ≡ false = rw (← e, x.fenced.held, x.from_claimed) in
            let unsent : dispatches d r ≡ 0 = ground (arith, f.once, f.spent, unspent) in
            record {
              once = rw (x.adapter_called, same) (omega (arith, unsent));
              spent = λ _. rw (← e, x.fenced.moved);
            }
        | inr other ↦
            kept d (s, r) (dispatch_config (worker store ad) call req (s, r)).0 f
              (dispatch_activity-used call req s r d) (rw (x.adapter_called, other))
      ]

  dispatch_activity-IsFenced :
      (call : Call) (req : FencedDispatch) (s : S) (r : Recorded A) (d : String)
      → IsFenced d (s, r)
      → IsFenced d (dispatch_config (worker store ad) call req (s, r)).0
  dispatch_activity-IsFenced call req s r d f =
      elim (Result-cases (dispatch_config (worker store ad) call req (s, r)).1) [
        | inl (o, h) ↦ own_dispatch call req s r d o f h
        | inr (e, h) ↦
            let x = dispatch_config-IsRefused store (recording ad) claim_of laws call req s r e h in
            kept d (s, r) (dispatch_config (worker store ad) call req (s, r)).0 f
              (dispatch_activity-used call req s r d) (rw x.adapter_untouched)
      ]

  -- Reconciliation touches neither the claims nor the dispatch log.
  reconcile-unchanged :
      (call : Call) (req : DispatchRequest) (s : S) (r : Recorded A)
      → let w = (reconcile_dispatch (worker store ad) call req (s, r)).0 in
        (w.0 ≡ s) × (w.1.dispatched ≡ r.dispatched)
  unfolding reconcile_dispatch
  reconcile-unchanged call req s r = ground arith

  invoke-IsFenced :
      (d : String) (w : S × Recorded A) (i : Invocation)
      → IsFenced d w
      → IsFenced d (invoke store ad w i)
  unfolding invoke revert_state_compensation
  invoke-IsFenced d (s, r) (claim call req) f =
      kept d (s, r) ((claim_execution (some store) call req s).0, r) f
        (claim_activity-used call req s d) refl
  invoke-IsFenced d (s, r) (advance call t) f =
      kept d (s, r) ((advance_execution_claim (some store) call t s).0, r) f
        (advance_activity-used call t s d) refl
  invoke-IsFenced d (s, r) (dispatch call req) f = dispatch_activity-IsFenced call req s r d f
  invoke-IsFenced d (s, r) (reconcile call req) f =
      let (store_kept, log_kept) = reconcile-unchanged call req s r in
      kept d (s, r) (reconcile_dispatch (worker store ad) call req (s, r)).0 f
        (λ u. rw store_kept u) (rw log_kept)
  invoke-IsFenced d (s, r) (compensate call req) f = record { once = f.once; spent = f.spent }

  pub invoke_all-IsFenced :
      (d : String) (w : S × Recorded A) (is : List Invocation)
      → IsFenced d w
      → IsFenced d (invoke_all store ad w is)
  unfolding invoke_all
  invoke_all-IsFenced d w [] f = f
  invoke_all-IsFenced d w (i ∷ is) f =
      invoke_all-IsFenced d (invoke store ad w i) is (invoke-IsFenced d w i f)

  -- Starting with no dispatch recorded, whatever activities run in whatever order, for whatever
  -- runs and inputs: the adapter is called at most once with the key of each decision, and if it
  -- was called, the decision's claim is EXECUTING, RECONCILIATION_REQUIRED, COMPLETED or FAILED.
  pub dispatched_at_most_once :
      (d : String) (s : S) (a : A) (is : List Invocation)
      → let w = invoke_all store ad (s, record { dispatched = []; inner = a }) is in
        (dispatches d w.1 ≤ 1) × (dispatches d w.1 ≢ 0 → used (claim_of w.0 d) ≡ true)
  dispatched_at_most_once d s a is =
      let f =
        invoke_all-IsFenced d (s, record { dispatched = []; inner = a }) is
          (record { once = omega arith; spent = λ h. absurd (omega arith) }) in
      (f.once, λ h. f.spent (omega arith))
