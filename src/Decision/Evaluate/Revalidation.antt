-- ===== src/Decision/Evaluate/Revalidation.antt =====
-- What `Revalidate` adds to `Evaluate`, and what a validated policy excludes.
use sentry_gate_ai.Contracts.{ExecutionRequest, Verdict, ReasonCode, AgentProposal, ok}
use sentry_gate_ai.Prelude.{
  String, ℕ, ◌≡◌, ◌≢◌, ◌↔◌, true, List, Option, some, arith, eq_iff, Option-cases, inl, inr, ◌++◌,
  ◌∷◌, [],
}
use sentry_gate_ai.Prelude.Assoc.{lookup, has}
use sentry_gate_ai.Policy.{Snapshot, Target, target, environment_mode}
use sentry_gate_ai.Policy.Document.{Document}
use sentry_gate_ai.Policy.Build.{build, declared_mode}
use sentry_gate_ai.Policy.Validity.{IsValid, build-IsValid}
use sentry_gate_ai.Decision.Hash.{request_hash}
use sentry_gate_ai.Decision.Evaluate.{evaluate, target_mode, revalidate}
use sentry_gate_ai.Decision.Evaluate.Verdicts.{Lists}

-- Over a consistent snapshot a registered target's environment has one of the three modes.
target_mode-declared :
    (s : Snapshot) (t : Target) (id : String)
    → IsValid s
    → target s id ≡ some t
    → declared_mode (target_mode s (some t)) ≡ true
unfolding target target_mode environment_mode has
target_mode-declared s t id v e = elim (Option-cases (lookup t.environment s.environments)) [
  | inl p ↦ absurd (ground (arith, p, v.targets id t e))
  | inr (mode, p) ↦ ground (arith, p, v.modes t.environment mode p)
]

-- The `default` branch of `Evaluate` is never taken over a policy that `build` accepted: no
-- decision of such a policy lists POLICY_UNAVAILABLE.
pub evaluate_available :
    (doc : Document) (s : Snapshot) (agent_id : String) (p : AgentProposal)
    → build doc ≡ ok s
    → ¬ Lists ReasonCode.policy_unavailable (evaluate (some s) agent_id p)
unfolding evaluate
evaluate_available doc s agent_id p e h = elim (Option-cases (target s p.target_id)) [
  | inl q ↦ ground (arith, q)
  | inr (t, q) ↦ ground (arith, q, target_mode-declared s t p.target_id (build-IsValid doc s e) q)
]

-- `Revalidate` answers ALLOW exactly when `Evaluate` does and the proposal still has the hash that
-- ingress recorded.
pub revalidate_allow_iff :
    (sha256_hex : List ℕ → String) (s : Option Snapshot) (req : ExecutionRequest)
    → ((revalidate sha256_hex s req).verdict ≡ Verdict.allow) ↔ (
        ((evaluate s req.agent_id req.proposal).verdict ≡ Verdict.allow)
        × (request_hash sha256_hex req.proposal ≡ req.request_hash))
unfolding revalidate
revalidate_allow_iff sha256_hex s req = (
  λ h. ground (arith, eq_iff (request_hash sha256_hex req.proposal) req.request_hash),
  λ h. ground (arith, eq_iff (request_hash sha256_hex req.proposal) req.request_hash),
)

-- A changed proposal is denied, whatever the policy says. The policy's deny reasons are kept before
-- REQUEST_HASH_MISMATCH; if the policy did not deny, that is the only reason.
pub revalidate_mismatch :
    (sha256_hex : List ℕ → String) (s : Option Snapshot) (req : ExecutionRequest)
    → request_hash sha256_hex req.proposal ≢ req.request_hash
    → let d = revalidate sha256_hex s req in
      let policy = evaluate s req.agent_id req.proposal in
      (d.verdict ≡ Verdict.deny)
      × (policy.verdict ≡ Verdict.deny
          → d.reasons ≡ policy.reasons ++ ReasonCode.request_hash_mismatch ∷ [])
      × (policy.verdict ≢ Verdict.deny → d.reasons ≡ ReasonCode.request_hash_mismatch ∷ [])
unfolding revalidate
revalidate_mismatch sha256_hex s req h =
    let tested = eq_iff (request_hash sha256_hex req.proposal) req.request_hash in
    (ground (arith, tested), λ d. ground (arith, tested), λ d. ground (arith, tested))
