-- ===== src/Auth/Context.antt =====
-- internal/auth/agentkeys.go: the agent ID that the middleware leaves in the request's context.
use sentry_gate_ai.Prelude.{
  String, ◌≡◌, ◌≢◌, ◌↔◌, Option, none, some, ◌==◌, arith, eq_iff, if◌then◌else◌,
}

-- `AgentIDFromContext`, over the string that the context holds
unfoldable pub agent_id_from_context : Option String → Option String
agent_id_from_context none = none
agent_id_from_context (some id) = if id == "" then none else some id

pub agent_id_from_context_iff :
    (held : Option String) (id : String)
    → (agent_id_from_context held ≡ some id) ↔ ((held ≡ some id) × (id ≢ ""))
unfolding agent_id_from_context
agent_id_from_context_iff none id = (λ h. absurd (ground arith), λ h. absurd (ground (arith, h)))
agent_id_from_context_iff (some x) id =
    (λ h. ground (arith, h, eq_iff x ""), λ h. ground (arith, h.0, h.1, eq_iff x ""))
