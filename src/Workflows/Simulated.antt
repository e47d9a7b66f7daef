-- ===== src/Workflows/Simulated.antt =====
-- workflows/simulated.go: the in-memory adapter. Its three maps are association lists; a missing
-- counter counts as 0, as in Go. The mutex makes each method one step. The printed lines are not
-- modelled.
pub mod Consistent
pub mod Effects
use sentry_gate_ai.Prelude.{
  String, ℕ, zero, suc, ◌+◌, Bool, true, false, ◌||◌, ◌==◌, [], Option, none, some, if◌then◌else◌,
}
use sentry_gate_ai.Prelude.Assoc.{Map, lookup, insert}
use sentry_gate_ai.Contracts.{
  Error, ctx_err, DispatchRequest, DispatchOutcome, OutcomeStatus, unknown_outcome, failing_node_id,
  lost_response_node_id, unreachable_node_id, partitioned_node_id,
}
use sentry_gate_ai.Workflows.Adapter.{Adapter}

pub record SimulatedAdapter : Type 0 where
  pub effects : Map DispatchOutcome
  pub mutations : Map ℕ
  pub compensations : Map ℕ

-- `NewSimulatedAdapter`
abbrev pub new_simulated_adapter : SimulatedAdapter
new_simulated_adapter = record { effects = []; mutations = []; compensations = [] }

abbrev count_or_zero : Option ℕ → ℕ
count_or_zero none = 0
count_or_zero (some n) = n

-- `m[key]` on a map of counters, and `m[key]++`
abbrev pub counter : Map ℕ → String → ℕ
counter m key = count_or_zero (lookup key m)

abbrev pub bump : Map ℕ → String → Map ℕ
bump m key = insert key (counter m key + 1) m

-- `Mutations` and `Compensations`
unfoldable pub mutations_of : SimulatedAdapter → String → ℕ
mutations_of s key = counter s.mutations key

unfoldable pub compensations_of : SimulatedAdapter → String → ℕ
compensations_of s key = counter s.compensations key

-- `apply`
unfoldable pub apply :
    SimulatedAdapter → String → DispatchOutcome → SimulatedAdapter × DispatchOutcome
apply s key effect =
    (record s { effects = insert key effect s.effects; mutations = bump s.mutations key }, effect)

abbrev pub failure_outcome : Bool → String → DispatchOutcome
failure_outcome partial detail = record {
  status = OutcomeStatus.failure;
  partially_applied = partial;
  detail = detail;
}

abbrev pub success_outcome : String → DispatchOutcome
success_outcome detail = record {
  status = OutcomeStatus.success;
  partially_applied = false;
  detail = detail;
}

-- `fence`
unfoldable pub fence : SimulatedAdapter → String → String → SimulatedAdapter × DispatchOutcome
fence s key detail =
    let effect = failure_outcome false detail in
    (record s { effects = insert key effect s.effects }, effect)

-- The `switch` on the target.
dispatch_to : SimulatedAdapter → String → String → SimulatedAdapter × DispatchOutcome
unfolding apply unknown_outcome
dispatch_to s key target_id =
    if target_id == failing_node_id
    then apply s key
        (failure_outcome true "simulated: change partly applied, then rejected by target")
    else if target_id == lost_response_node_id
    then (
      (apply s key (success_outcome "simulated: change applied")).0,
      unknown_outcome "simulated: change applied but the response was lost",
    )
    else if target_id == unreachable_node_id || target_id == partitioned_node_id
    then (s, unknown_outcome "simulated: no response from target")
    else apply s key (success_outcome "simulated: change applied")

-- `Dispatch`
unfoldable pub dispatch :
    SimulatedAdapter → Bool → DispatchRequest → SimulatedAdapter × DispatchOutcome
unfolding dispatch_to fence
dispatch s ended req = elim (lookup req.idempotency_key s.effects) [
  | some effect ↦ (s, effect)
  | none ↦
      if ended
      then fence s req.idempotency_key
          "simulated: not sent, context ended before dispatch; key fenced"
      else dispatch_to s req.idempotency_key req.proposal.target_id
]

-- `Reconcile`
unfoldable pub reconcile :
    SimulatedAdapter → Bool → DispatchRequest → SimulatedAdapter × DispatchOutcome
unfolding fence unknown_outcome
reconcile s true req = (s, unknown_outcome "simulated: reconciliation cancelled")
reconcile s false req = elim (lookup req.idempotency_key s.effects) [
  | some effect ↦ (s, effect)
  | none ↦
      if req.proposal.target_id == partitioned_node_id
      then (s, unknown_outcome "simulated: target not reachable for status queries")
      else fence s req.idempotency_key
          "simulated: target has no record of this key; key fenced so it cannot take effect later"
]

-- `Compensate`
unfoldable pub compensate :
    SimulatedAdapter → Bool → DispatchRequest → SimulatedAdapter × Option Error
compensate s ended req = elim (ctx_err ended) [
  | some e ↦ (s, some e)
  | none ↦ (record s { compensations = bump s.compensations req.idempotency_key }, none)
]

abbrev pub simulated_adapter : Adapter SimulatedAdapter
simulated_adapter = record { dispatch = dispatch; reconcile = reconcile; compensate = compensate }
