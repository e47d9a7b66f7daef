-- ===== src/Decision/Evaluate/Verdicts.antt =====
-- What `Evaluate` and `Revalidate` decide, stated by the policy's rules.
use sentry_gate_ai.Prelude.{String, ◌≡◌, ◌↔◌, Bool, true, false, none, some, arith, nat_eq}
use sentry_gate_ai.Prelude.Lists.{any}
use sentry_gate_ai.Contracts.{AgentProposal, reason_number, Decision, Verdict, ReasonCode}
use sentry_gate_ai.Policy.{
  Snapshot, Target, EnvironmentMode, has_command, has_agent, agent_may_use, target,
  environment_mode,
}
use sentry_gate_ai.Decision.Evaluate.{target_mode, evaluate}

-- The agent is declared, the command is in the catalogue, and the agent may issue it.
abbrev pub AgentPermitted : Snapshot → String → AgentProposal → Type 0
AgentPermitted s agent_id p =
    (has_agent s agent_id ≡ true)
    × (has_command s p.type ≡ true)
    × (agent_may_use s agent_id p.type ≡ true)

-- The target is registered, not protected, and its environment has the mode.
abbrev pub TargetOpen : Snapshot → AgentProposal → EnvironmentMode → Type 0
TargetOpen s p mode =
    (t : Target) × (target s p.target_id ≡ some t)
    × (t.protected ≡ false)
    × (environment_mode s t.environment ≡ some mode)

-- `Evaluate` answers ALLOW exactly when the agent is permitted and the target is open in an
-- environment whose mode is allow.
pub evaluate_allow_iff :
    (s : Snapshot) (agent_id : String) (p : AgentProposal)
    → ((evaluate (some s) agent_id p).verdict ≡ Verdict.allow)
      ↔ (AgentPermitted s agent_id p × TargetOpen s p EnvironmentMode.allow)
unfolding evaluate target_mode
evaluate_allow_iff s agent_id p = (λ h. ground arith, λ h. ground arith)

-- `Evaluate` answers REQUIRE_APPROVAL exactly when the agent is permitted and the target is open
-- in an environment whose mode is require_approval.
pub evaluate_approval_iff :
    (s : Snapshot) (agent_id : String) (p : AgentProposal)
    → ((evaluate (some s) agent_id p).verdict ≡ Verdict.require_approval)
      ↔ (AgentPermitted s agent_id p × TargetOpen s p EnvironmentMode.require_approval)
unfolding evaluate target_mode
evaluate_approval_iff s agent_id p = (λ h. ground arith, λ h. ground arith)

abbrev pub reason_is : ReasonCode → ReasonCode → Bool
reason_is a b = nat_eq (reason_number a) (reason_number b)

abbrev pub Lists : ReasonCode → Decision → Type 0
Lists r d = any (reason_is r) d.reasons ≡ true

-- Each deny reason is listed exactly when the proposal breaks its rule.
pub record ReasonsExact (s : Snapshot) (agent_id : String) (p : AgentProposal) : Type 0 where
  pub agent :
      Lists ReasonCode.agent_unknown (evaluate (some s) agent_id p) ↔ (has_agent s agent_id ≡ false)
  pub command :
      Lists ReasonCode.command_unknown (evaluate (some s) agent_id p)
      ↔ (has_command s p.type ≡ false)
  pub permission : Lists ReasonCode.command_not_permitted (evaluate (some s) agent_id p) ↔ (
      (has_agent s agent_id ≡ true)
      × (has_command s p.type ≡ true)
      × (agent_may_use s agent_id p.type ≡ false))
  pub registration :
      Lists ReasonCode.target_unregistered (evaluate (some s) agent_id p)
      ↔ (target s p.target_id ≡ none)
  pub protection :
      Lists ReasonCode.target_protected (evaluate (some s) agent_id p)
      ↔ ((t : Target) × (target s p.target_id ≡ some t) × (t.protected ≡ true))
  pub environment : Lists ReasonCode.environment_denied (evaluate (some s) agent_id p) ↔ (
      (t : Target) × (target s p.target_id ≡ some t)
      × (environment_mode s t.environment ≡ some EnvironmentMode.deny))

-- Over a loaded policy, `Evaluate` lists each of its six deny reasons exactly when the proposal
-- breaks the rule behind it: all broken rules are reported, not only the first.
pub evaluate-ReasonsExact :
    (s : Snapshot) (agent_id : String) (p : AgentProposal) → ReasonsExact s agent_id p
unfolding evaluate target_mode
evaluate-ReasonsExact s agent_id p = record {
  agent = (λ h. ground arith, λ h. ground arith);
  command = (λ h. ground arith, λ h. ground arith);
  permission = (λ h. ground arith, λ h. ground arith);
  registration = (λ h. ground arith, λ h. ground arith);
  protection = (λ h. ground arith, λ h. ground arith);
  environment = (λ h. ground arith, λ h. ground arith);
}
