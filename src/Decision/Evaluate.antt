-- ===== src/Decision/Evaluate.antt =====
-- internal/decision/evaluate.go: `Evaluate` and `Revalidate`. A nil snapshot is `none`.
pub mod Verdicts
pub mod Revalidation
use sentry_gate_ai.Prelude.{
  String, ℕ, Bool, true, false, not, ◌&&◌, ◌==◌, List, [], ◌∷◌, ◌++◌, Option, none, some,
  if◌then◌else◌,
}
use sentry_gate_ai.Contracts.{AgentProposal, Decision, ExecutionRequest, Verdict, ReasonCode}
use sentry_gate_ai.Policy.{
  Snapshot, Target, EnvironmentMode, has_command, has_agent, agent_may_use, target,
  environment_mode,
}
use sentry_gate_ai.Decision.Hash.{request_hash}

-- `append(deny, code)` under a condition
abbrev pub when : Bool → ReasonCode → List ReasonCode
when true code = code ∷ []
when false code = []

abbrev pub is_deny_mode : EnvironmentMode → Bool
is_deny_mode EnvironmentMode.deny = true
is_deny_mode _ = false

-- The environment's mode, or the zero value if it is not declared.
abbrev pub mode_or_zero : Option EnvironmentMode → EnvironmentMode
mode_or_zero none = EnvironmentMode.other ""
mode_or_zero (some m) = m

-- The deny reasons about the agent and the command.
unfoldable pub agent_reasons : Snapshot → String → AgentProposal → List ReasonCode
agent_reasons s agent_id p =
    let agent_known = has_agent s agent_id in
    let command_known = has_command s p.type in
    when (not agent_known) ReasonCode.agent_unknown
    ++ (when (not command_known) ReasonCode.command_unknown
        ++ when (agent_known && command_known && not (agent_may_use s agent_id p.type))
            ReasonCode.command_not_permitted)

-- What is found out about the target: its environment, its environment's mode and deny reasons.
unfoldable pub target_environment : Option Target → String
target_environment none = ""
target_environment (some t) = t.environment

unfoldable pub target_mode : Snapshot → Option Target → EnvironmentMode
target_mode s none = EnvironmentMode.other ""
target_mode s (some t) = mode_or_zero (environment_mode s t.environment)

unfoldable pub target_reasons : Snapshot → Option Target → List ReasonCode
unfolding target_mode
target_reasons s none = ReasonCode.target_unregistered ∷ []
target_reasons s (some t) =
    when t.protected ReasonCode.target_protected
    ++ when (is_deny_mode (target_mode s (some t))) ReasonCode.environment_denied

-- The last `switch`: the verdict and the reasons.
unfoldable pub conclude : List ReasonCode → EnvironmentMode → Verdict × List ReasonCode
conclude (r ∷ deny) mode = (Verdict.deny, r ∷ deny)
conclude [] EnvironmentMode.require_approval =
    (Verdict.require_approval, ReasonCode.approval_required ∷ [])
conclude [] EnvironmentMode.allow = (Verdict.allow, ReasonCode.environment_allowed ∷ [])
conclude [] _ = (Verdict.deny, ReasonCode.policy_unavailable ∷ [])

unfoldable pub deny_reasons : Snapshot → String → AgentProposal → List ReasonCode
unfolding agent_reasons target_reasons
deny_reasons s agent_id p = agent_reasons s agent_id p ++ target_reasons s (target s p.target_id)

unfoldable pub evaluate : Option Snapshot → String → AgentProposal → Decision
unfolding target_environment deny_reasons conclude
evaluate none agent_id p = record {
  verdict = Verdict.deny;
  reasons = ReasonCode.policy_unavailable ∷ [];
  environment = "";
  policy_version = "";
  policy_digest = "";
}
evaluate (some s) agent_id p =
    let found = target s p.target_id in
    let (verdict, reasons) = conclude (deny_reasons s agent_id p) (target_mode s found) in
    record {
      verdict = verdict;
      reasons = reasons;
      environment = target_environment found;
      policy_version = s.version;
      policy_digest = s.digest;
    }

-- The deny reasons that a decision already has; those of another verdict are dropped.
abbrev pub kept_reasons : Verdict → List ReasonCode → List ReasonCode
kept_reasons Verdict.deny rs = rs
kept_reasons _ rs = []

unfoldable pub revalidate : (List ℕ → String) → Option Snapshot → ExecutionRequest → Decision
unfolding evaluate
revalidate sha256_hex s req =
    let d = evaluate s req.agent_id req.proposal in
    if request_hash sha256_hex req.proposal == req.request_hash then d else record d {
      verdict = Verdict.deny;
      reasons = kept_reasons d.verdict d.reasons ++ ReasonCode.request_hash_mismatch ∷ [];
    }
