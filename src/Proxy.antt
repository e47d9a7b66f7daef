-- ===== src/Proxy.antt =====
-- proxy/proxy.go: the pooled proposal envelopes, and the evaluation of a proposal in one of a fixed
-- number of slots. The pool is Go's sync.Pool, which hands out an old envelope or a new one.
pub mod Slots
pub mod Clients
use sentry_gate_ai.Prelude.{String, ℕ, Bool, true, false, Option, none, some, if◌then◌else◌}
use sentry_gate_ai.Prelude.Int.{ℤ, pos, negsuc, int_lt}
use sentry_gate_ai.Contracts.{
  Error, ctx_err, sentinel, context_canceled, Result, ok, err, AgentProposal, Decision,
}
use sentry_gate_ai.Decision.Evaluate.{evaluate}
use sentry_gate_ai.Policy.{Snapshot}

abbrev pub zero_proposal : AgentProposal
zero_proposal = record { id = ""; type = ""; target_id = ""; payload = "" }

-- `AcquireProposal`, on the envelope that the pool hands out
unfoldable pub acquire_proposal : AgentProposal → AgentProposal
acquire_proposal got = zero_proposal

-- `ReleaseProposal`: the envelope that goes back to the pool, if any
unfoldable pub release_proposal : Option AgentProposal → Option AgentProposal
release_proposal none = none
release_proposal (some p) = some zero_proposal

-- `NewSentryProxy`: the number of slots
unfoldable pub slot_count : ℤ → ℕ
slot_count (pos n) = if int_lt (pos n) 1 then 1 else n
slot_count (negsuc n) = 1

-- The two ways in which `select` goes on.
pub data Wait : Type 0 where
  slot ctx_done : Wait

-- `EvaluateThrottled`, with the policy's current snapshot, whether the context has ended when it is
-- called, and how `select` goes on.
unfoldable pub evaluate_throttled :
    Option Snapshot → Bool → Wait → String → AgentProposal → Result Error Decision
unfolding evaluate ctx_err
evaluate_throttled policy ended wait agent_id p = elim (ctx_err ended) [
  | some e ↦ err e
  | none ↦ elim wait [
    | ctx_done ↦ err (sentinel context_canceled)
    | slot ↦ ok (evaluate policy agent_id p)
  ]
]
