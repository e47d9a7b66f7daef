-- ===== src/Workflows/Activities.antt =====
-- workflows/activities.go and decisions.go: the activities that touch the claim store or the
-- infrastructure. A nil field is `none`. Temporal's execution info, the clock and the state of the
-- context at each use of it are the record `Call`.
use sentry_gate_ai.Contracts.{
  ctx_err, Error, text, errors_is, error_text, claim_held, claim_not_held, claim_not_found, Result,
  ok, err, Time, ClaimState, ClaimOwner, ExecutionClaim, ClaimRequest, ClaimResult, ClaimTransition,
  owner_eq, claim_state_eq, ReasonCode, DispatchRequest, DispatchOutcome, FencedDispatch,
  unknown_outcome, checked, DecisionRecord, ExecutionRequest, IngressVerification, Decision,
}
use sentry_gate_ai.Prelude.{
  ◌+++◌, String, ℕ, Bool, true, false, not, ◌&&◌, ◌||◌, ◌==◌, List, Option, none, some,
  if◌then◌else◌,
}
use sentry_gate_ai.Policy.{Snapshot}
use sentry_gate_ai.Decision.Claim.{ClaimStore, execution_key}
use sentry_gate_ai.Decision.Ingress.{check_ingress, ingress_reason}
use sentry_gate_ai.Decision.Evaluate.{revalidate}
use sentry_gate_ai.Workflows.Adapter.{Adapter}

-- `activity.GetInfo(ctx).WorkflowExecution`, `time.Now()`, and whether the context has ended at
-- the first, second and third use.
pub record Call : Type 0 where
  pub workflow_id : String
  pub run_id : String
  pub now : Time
  pub ended : Bool
  pub ended_second : Bool
  pub ended_third : Bool

-- A plain error, or a non-retryable application error with its message, type and cause.
pub data ActivityError : Type 0 where
  plain : Error → ActivityError
  application : String → String → Option Error → ActivityError

abbrev pub fence_rejected_type : String
fence_rejected_type = "EXECUTION_FENCE_REJECTED"

abbrev pub fence_unknown_type : String
fence_unknown_type = "EXECUTION_FENCE_UNKNOWN"

abbrev pub claim_rejected_type : String
claim_rejected_type = "EXECUTION_CLAIM_REJECTED"

-- `claimOwner`
abbrev pub claim_owner : Call → String → ClaimOwner
claim_owner c token = record { workflow_id = c.workflow_id; run_id = c.run_id; token = token }

-- `fenceRejected` and `fenceUnknown`
abbrev pub fence_rejected : String → Option Error → ActivityError
fence_rejected msg cause = application ("adapter not called: " +++ msg) fence_rejected_type cause

abbrev pub fence_unknown : String → Option Error → ActivityError
fence_unknown msg cause = application ("adapter not called: " +++ msg) fence_unknown_type cause

pub record InfrastructureActivities (S A : Type 0) : Type 0 where
  pub adapter : Option (Adapter A)
  pub claims : Option (ClaimStore S)

-- The read that follows a refused fence.
unfoldable pub fence_refused : ClaimOwner → Error → Result Error ExecutionClaim → ActivityError
unfolding errors_is owner_eq
fence_refused owner e (err gerr) =
    if errors_is gerr claim_not_found
    then fence_rejected "execution fence is not held by this run" (some e)
    else fence_unknown "execution fence rejected and the claim could not be read" (some gerr)
fence_refused owner e (ok held) =
    if owner_eq held.owner owner && not (claim_state_eq held.state ClaimState.released)
    then fence_unknown "this run already acquired the execution fence" (some e)
    else fence_rejected "execution fence is not held by this run" (some e)

module _ {S A : Type 0} where
  -- After the compare-and-set: the adapter call, or the reason why there is none.
  unfoldable pub after_fence :
      ClaimStore S
      → Adapter A
      → Call
      → FencedDispatch
      → S
      → A
      → Option Error
      → (S × A) × Result ActivityError DispatchOutcome
  unfolding fence_refused checked
  after_fence store ad call req s a none =
      let (a', o) = ad.dispatch a call.ended_third req.dispatch in ((s, a'), ok (checked o))
  after_fence store ad call req s a (some e) =
      if not (errors_is e claim_not_held)
      then (
        (s, a),
        err (fence_unknown "execution fence write failed and may have committed" (some e)),
      )
      else (
        (s, a),
        err (
            fence_refused (claim_owner call req.token) e
              (store.get_claim s call.ended_second req.decision_id)),
      )

  fenced_dispatch :
      ClaimStore S
      → Adapter A
      → Call
      → FencedDispatch
      → S
      → A
      → (S × A) × Result ActivityError DispatchOutcome
  fenced_dispatch store ad call req s a =
      if req.decision_id == "" || req.token == ""
      then ((s, a), err (fence_rejected "request is missing the decision ID or claim token" none))
      else if not (req.dispatch.idempotency_key == execution_key req.decision_id)
      then (
        (s, a),
        err (fence_rejected "idempotency key does not belong to the fenced decision" none),
      )
      else (let (s', e) =
            store.advance_claim s call.ended req.decision_id (claim_owner call req.token)
              ClaimState.executing call.now in
          after_fence store ad call req s' a e)

  -- `DispatchConfig`
  unfoldable pub dispatch_config :
      InfrastructureActivities S A
      → Call
      → FencedDispatch
      → S × A
      → (S × A) × Result ActivityError DispatchOutcome
  unfolding fenced_dispatch
  dispatch_config act call req (s, a) = elim act.adapter [
    | none ↦ ((s, a), err (fence_rejected "no infrastructure adapter configured" none))
    | some ad ↦ elim act.claims [
      | none ↦ ((s, a), err (fence_rejected "execution claim store not configured" none))
      | some store ↦ fenced_dispatch store ad call req s a
    ]
  ]

  -- `ReconcileDispatch`
  unfoldable pub reconcile_dispatch :
      InfrastructureActivities S A → Call → DispatchRequest → S × A → (S × A) × DispatchOutcome
  unfolding checked unknown_outcome
  reconcile_dispatch act call req (s, a) = elim act.adapter [
    | none ↦ ((s, a), unknown_outcome "cannot reconcile: no infrastructure adapter configured")
    | some ad ↦
        if req.idempotency_key == ""
        then ((s, a), unknown_outcome "cannot reconcile: request has no idempotency key")
        else (let (a', o) = ad.reconcile a call.ended req in ((s, a'), checked o))
  ]

  -- `RevertStateCompensation`
  unfoldable pub revert_state_compensation :
      InfrastructureActivities S A → Call → DispatchRequest → S × A → (S × A) × Option Error
  revert_state_compensation act call req (s, a) = elim act.adapter [
    | none ↦ ((s, a), some (text "cannot compensate: no infrastructure adapter configured"))
    | some ad ↦ let (a', e) = ad.compensate a call.ended req in ((s, a'), e)
  ]

claim_answer : Option Error → Result ActivityError ClaimResult
unfolding errors_is error_text
claim_answer none = ok (record { claimed = true; reason = ReasonCode.unset; detail = "" })
claim_answer (some e) =
    if errors_is e claim_held
    then ok (record { claimed = false; reason = ReasonCode.already_claimed; detail = error_text e })
    else err (plain e)

advance_answer : Option Error → Option ActivityError
unfolding errors_is error_text
advance_answer none = none
advance_answer (some e) =
    if errors_is e claim_not_held
    then some (application (error_text e) claim_rejected_type (some e))
    else some (plain e)

module _ {S : Type 0} where
  -- `DecisionActivities.ClaimExecution`
  unfoldable pub claim_execution :
      Option (ClaimStore S) → Call → ClaimRequest → S → S × Result ActivityError ClaimResult
  unfolding claim_answer
  claim_execution none call req s = (s, err (plain (text "execution claim store not configured")))
  claim_execution (some store) call req s =
      if req.decision_id == "" || req.token == ""
      then (
        s,
        err (
            application "claim request is missing the decision ID or token" claim_rejected_type
              none),
      )
      else (let (s', e) =
            store.claim_execution s call.ended req.decision_id (claim_owner call req.token)
              call.now in
          (s', claim_answer e))

  -- `AdvanceExecutionClaim`
  unfoldable pub advance_execution_claim :
      Option (ClaimStore S) → Call → ClaimTransition → S → S × Option ActivityError
  unfolding advance_answer
  advance_execution_claim none call t s =
      (s, some (plain (text "execution claim store not configured")))
  advance_execution_claim (some store) call t s =
      if claim_state_eq t.to ClaimState.executing
      then (
        s,
        some (
            application "EXECUTING is entered only by the dispatch activity" claim_rejected_type
              none),
      )
      else (let (s', e) =
            store.advance_claim s call.ended t.decision_id (claim_owner call t.token) t.to
              call.now in
          (s', advance_answer e))

-- `EvaluateExecution`: the policy is read when the activity runs.
unfoldable pub evaluate_execution :
    (List ℕ → String) → Option Snapshot → Call → ExecutionRequest → Result ActivityError Decision
evaluate_execution sha256_hex current call req = elim (ctx_err call.ended) [
  | some e ↦ err (plain e)
  | none ↦ ok (revalidate sha256_hex current req)
]

verification_answer : Option Error → Result ActivityError IngressVerification
unfolding error_text
verification_answer none = ok (record { valid = true; reason = ReasonCode.unset; detail = "" })
verification_answer (some e) = elim (ingress_reason e) [
  | some reason ↦ ok (record { valid = false; reason = reason; detail = error_text e })
  | none ↦ err (plain e)
]

-- `VerifyIngressDecision`, with the store's answer to `GetDecision`; `none` is a nil store.
unfoldable pub verify_ingress_decision :
    (List ℕ → String)
    → Option (Result Error DecisionRecord)
    → Call
    → ExecutionRequest
    → Result ActivityError IngressVerification
unfolding verification_answer
verify_ingress_decision sha256_hex none call req =
    err (plain (text "decision store not configured"))
verify_ingress_decision sha256_hex (some loaded) call req =
    verification_answer (check_ingress sha256_hex loaded req call.workflow_id)

-- `RecordDecision`, over the store's `AppendDecision`; a nil store is `none`.
unfoldable pub record_decision :
    {S : Type 0}
    → Option (S → Bool → DecisionRecord → S × Option Error)
    → Call
    → DecisionRecord
    → S
    → S × Option Error
record_decision none call rec s = (s, some (text "decision store not configured"))
record_decision (some append) call rec s = append s call.ended rec
