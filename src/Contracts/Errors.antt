-- ===== src/Contracts/Errors.antt =====
-- Go's `error` values: the sentinels of shared/contracts and internal/decision, errors that wrap
-- one with `%w`, and errors made by `errors.New` or `fmt.Errorf` without a wrapped cause.
use sentry_gate_ai.Prelude.{
  ℕ, String, Bool, true, false, Option, none, some, nat_eq, ◌+++◌, ◌≡◌, ◌⊎◌, inl, inr, refl,
}

pub data Sentinel : Type 0 where
  invalid_decision_record decision_conflict decision_not_found : Sentinel
  claim_held claim_not_held claim_not_found : Sentinel
  audit_persist_failed : Sentinel
  ingress_decision_not_found ingress_wrong_stage ingress_not_allowed : Sentinel
  ingress_agent_mismatch ingress_hash_mismatch ingress_identity_mismatch : Sentinel
  context_canceled : Sentinel
  auth_handshake_failed non_retryable_infra_error root_core_mutation : Sentinel

pub data Error : Type 0 where
  sentinel : Sentinel → Error
  -- `fmt.Errorf("PREFIX%wSUFFIX", e)`
  wrap : String → Error → String → Error
  text : String → Error
  -- An index out of range, which panics in Go.
  index_panic : Error

pub data Result {ℓ} (E A : Type ℓ) : Type ℓ where
  ok : A → Result E A
  err : E → Result E A

pub Result-cases {ℓ} :
    {E A : Type ℓ} (r : Result E A) → ((a : A) × (r ≡ ok a)) ⊎ ((e : E) × (r ≡ err e))
Result-cases (ok a) = inl (a, refl)
Result-cases (err e) = inr (e, refl)

abbrev pub sentinel_number : Sentinel → ℕ
sentinel_number invalid_decision_record = 0
sentinel_number decision_conflict = 1
sentinel_number decision_not_found = 2
sentinel_number claim_held = 3
sentinel_number claim_not_held = 4
sentinel_number claim_not_found = 5
sentinel_number audit_persist_failed = 6
sentinel_number ingress_decision_not_found = 7
sentinel_number ingress_wrong_stage = 8
sentinel_number ingress_not_allowed = 9
sentinel_number ingress_agent_mismatch = 10
sentinel_number ingress_hash_mismatch = 11
sentinel_number ingress_identity_mismatch = 12
sentinel_number context_canceled = 13
sentinel_number auth_handshake_failed = 14
sentinel_number non_retryable_infra_error = 15
sentinel_number root_core_mutation = 16

abbrev pub sentinel_text : Sentinel → String
sentinel_text invalid_decision_record = "decision record is missing required fields"
sentinel_text decision_conflict = "decision record conflicts with an existing record"
sentinel_text decision_not_found = "decision record not found"
sentinel_text claim_held = "ingress decision is already claimed by another execution"
sentinel_text claim_not_held =
    "execution does not hold the claim in a state that permits this transition"
sentinel_text claim_not_found = "execution claim not found"
sentinel_text audit_persist_failed = "audit trail persistence failed"
sentinel_text ingress_decision_not_found = "ingress decision not found"
sentinel_text ingress_wrong_stage = "ingress decision has wrong stage"
sentinel_text ingress_not_allowed = "ingress decision verdict is not ALLOW"
sentinel_text ingress_agent_mismatch = "ingress decision agent does not match execution agent"
sentinel_text ingress_hash_mismatch = "ingress decision request hash does not match proposal"
sentinel_text ingress_identity_mismatch = "ingress decision identity does not match execution"
sentinel_text context_canceled = "context canceled"
sentinel_text auth_handshake_failed = "downstream authentication handshake failed"
sentinel_text non_retryable_infra_error = "NON_RETRYABLE_INFRASTRUCTURE_FAULT"
sentinel_text root_core_mutation =
    "critical compliance breach: autonomous mutation targeting ROOT_CORE_EDGE is blocked"

-- `%q` of a text that needs no escapes.
abbrev pub quote : String → String
quote s = "\"" +++ s +++ "\""

-- `errors.Is(e, target)`
unfoldable pub errors_is : Error → Sentinel → Bool
errors_is (sentinel s) target = nat_eq (sentinel_number s) (sentinel_number target)
errors_is (wrap _ e _) target = errors_is e target
errors_is (text _) target = false
errors_is index_panic target = false

-- `e.Error()`
unfoldable pub error_text : Error → String
error_text (sentinel s) = sentinel_text s
error_text (wrap prefix e suffix) = prefix +++ error_text e +++ suffix
error_text (text s) = s
error_text index_panic = "runtime error: index out of range"

-- A context's `Err()` at the time of a call: `true` is a context that has ended.
unfoldable pub ctx_err : Bool → Option Error
ctx_err true = some (sentinel context_canceled)
ctx_err false = none
