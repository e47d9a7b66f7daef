-- ===== src/Tests/Decisions.antt =====
-- The properties of the policy, of `Evaluate` and of ingress binding at concrete inputs.
use sentry_gate_ai.Decision.Hash.{hashed_fields, bytes, request_hash}
use sentry_gate_ai.Decision.Ingress.Content.{verified_proposal_unchanged}
use sentry_gate_ai.Decision.Hash.Fields.{AllShort, request_encoding_inj}
use sentry_gate_ai.Policy.{
  agent_may_use, environment_mode, has_agent, has_command, target, EnvironmentMode,
}
use sentry_gate_ai.Policy.Build.{
  build_agents, build_commands, build_environments, build_targets, build,
}
use sentry_gate_ai.Policy.Document.{
  agent_id_pattern, command_pattern, environment_pattern, target_id_pattern, version_pattern,
}
use sentry_gate_ai.Prelude.Assoc.{lookup}
use sentry_gate_ai.Prelude.Pattern.{one_then}
use sentry_gate_ai.Prelude.{◌≡◌, ◌≢◌, ◌↔◌, refl, [], ◌∷◌, ◌++◌, some, none, arith, eq_iff}
use sentry_gate_ai.Contracts.{
  ok, sentinel, ingress_hash_mismatch, ReasonCode, Verdict, DecisionRecord,
}
use sentry_gate_ai.Policy.Validity.{IsValid, build-IsValid}
use sentry_gate_ai.Decision.Evaluate.{evaluate, revalidate}
use sentry_gate_ai.Decision.Evaluate.Verdicts.{
  AgentPermitted, TargetOpen, Lists, ReasonsExact, evaluate_allow_iff, evaluate_approval_iff,
  evaluate-ReasonsExact,
}
use sentry_gate_ai.Decision.Evaluate.Revalidation.{
  evaluate_available, revalidate_allow_iff, revalidate_mismatch,
}
use sentry_gate_ai.Decision.Ingress.{verify_ingress, check_ingress}
use sentry_gate_ai.Decision.Ingress.Binding.{
  IsBacking, IsExplained, verify_ingress_iff, verify_ingress-IsExplained, check_ingress_iff,
}
use sentry_gate_ai.Tests.{digest, restart, document, snapshot, request, forged, allowed, loaded}

document_accepted : build document ≡ ok snapshot
unfolding build version_pattern one_then build_environments environment_pattern build_commands
    command_pattern lookup build_agents agent_id_pattern build_targets target_id_pattern
document_accepted = refl

build-IsValid_example : IsValid snapshot
build-IsValid_example = build-IsValid document snapshot document_accepted

evaluate_allow_iff_example :
    ((evaluate (some snapshot) "agent-1" restart).verdict ≡ Verdict.allow) ↔ (
      AgentPermitted snapshot "agent-1" restart × TargetOpen snapshot restart EnvironmentMode.allow)
evaluate_allow_iff_example = evaluate_allow_iff snapshot "agent-1" restart

evaluate_approval_iff_example :
    let p = record restart { target_id = "node-2" } in
    ((evaluate (some snapshot) "agent-1" p).verdict ≡ Verdict.require_approval)
    ↔ (AgentPermitted snapshot "agent-1" p × TargetOpen snapshot p EnvironmentMode.require_approval)
evaluate_approval_iff_example =
    evaluate_approval_iff snapshot "agent-1" (record restart { target_id = "node-2" })

evaluate-ReasonsExact_example : ReasonsExact snapshot "agent-2" restart
evaluate-ReasonsExact_example = evaluate-ReasonsExact snapshot "agent-2" restart

-- The restart is allowed, and scaling is not permitted for the agent.
evaluate_runs : (evaluate (some snapshot) "agent-1" restart).verdict ≡ Verdict.allow
unfolding evaluate has_agent lookup has_command agent_may_use target environment_mode
evaluate_runs = refl

evaluate_denies :
    (evaluate (some snapshot) "agent-1" (record restart { type = "SCALE" })).reasons
    ≡ ReasonCode.command_not_permitted ∷ []
unfolding evaluate has_agent lookup has_command agent_may_use target environment_mode
evaluate_denies = refl

evaluate_available_example :
    ¬ Lists ReasonCode.policy_unavailable (evaluate (some snapshot) "agent-1" restart)
evaluate_available_example =
    evaluate_available document snapshot "agent-1" restart document_accepted

revalidate_allow_iff_example :
    ((revalidate digest (some snapshot) request).verdict ≡ Verdict.allow) ↔ (
      ((evaluate (some snapshot) "agent-1" restart).verdict ≡ Verdict.allow)
      × (request_hash digest restart ≡ "short"))
revalidate_allow_iff_example = revalidate_allow_iff digest (some snapshot) request

forged_hash : request_hash digest restart ≢ "long"
unfolding request_hash
forged_hash e = ground (arith, eq_iff "short" "long")

revalidate_mismatch_example :
    let d = revalidate digest (some snapshot) forged in
    let policy = evaluate (some snapshot) "agent-1" restart in
    (d.verdict ≡ Verdict.deny)
    × (policy.verdict ≡ Verdict.deny
        → d.reasons ≡ policy.reasons ++ ReasonCode.request_hash_mismatch ∷ [])
    × (policy.verdict ≢ Verdict.deny → d.reasons ≡ ReasonCode.request_hash_mismatch ∷ [])
revalidate_mismatch_example = revalidate_mismatch digest (some snapshot) forged forged_hash

verify_ingress_iff_example :
    (verify_ingress digest allowed request "wf-1" ≡ none) ↔ IsBacking digest allowed request "wf-1"
verify_ingress_iff_example = verify_ingress_iff digest allowed request "wf-1"

verify_ingress_runs : verify_ingress digest allowed request "wf-1" ≡ none
unfolding verify_ingress request_hash
verify_ingress_runs = refl

abbrev tampered : DecisionRecord
tampered = record allowed { request_hash = "long" }

tampered_rejected :
    verify_ingress digest tampered request "wf-1" ≡ some (sentinel ingress_hash_mismatch)
unfolding verify_ingress request_hash
tampered_rejected = refl

verify_ingress-IsExplained_example :
    IsExplained digest tampered request "wf-1" (sentinel ingress_hash_mismatch)
verify_ingress-IsExplained_example =
    verify_ingress-IsExplained digest tampered request "wf-1" (sentinel ingress_hash_mismatch)
      tampered_rejected

check_ingress_iff_example :
    (check_ingress digest loaded request "wf-1" ≡ none)
    ↔ ((rec : DecisionRecord) × (loaded ≡ ok rec) × IsBacking digest rec request "wf-1")
check_ingress_iff_example = check_ingress_iff digest loaded request "wf-1"

restart_short : AllShort (hashed_fields restart)
unfolding bytes
restart_short = (omega arith, (omega arith, (omega arith, (omega arith, tt))))

restart_hash : "short" ≡ request_hash digest restart
unfolding request_hash
restart_hash = refl

request_encoding_inj_example : restart ≡ restart
request_encoding_inj_example = request_encoding_inj restart restart restart_short restart_short refl

verified_proposal_unchanged_example : restart ≡ request.proposal
verified_proposal_unchanged_example =
    verified_proposal_unchanged digest allowed request "wf-1" restart restart_short restart_short
      (λ _. refl) restart_hash verify_ingress_runs
