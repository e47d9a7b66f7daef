-- ===== src/Server/Routes.antt =====
-- cmd/sentrygate/handler.go and internal/auth/agentkeys.go: the routes under /v1/ with the middleware
-- in front of them. net/http matches the path.
use sentry_gate_ai.Prelude.{String, ℕ, Bool, List, Option, none, some}
use sentry_gate_ai.Contracts.{Result, Error, DecisionRecord, AuditRecord}
use sentry_gate_ai.Auth.{Keyring, resolve}
use sentry_gate_ai.Policy.{Snapshot}
use sentry_gate_ai.Server.Request.{Json, DecisionStore, WorkflowStarter, Response, write_error}
use sentry_gate_ai.Server.Intercept.{InterceptCall, intercept}
use sentry_gate_ai.Server.Queries.{Listing, refused, decisions_by_proposal, audit_by_proposal}

module _ (sha256_hex : List ℕ → String) (space : ℕ → Bool) (keyring : Keyring) where
  -- `auth.Middleware`: the handler behind it gets the agent of the presented key.
  unfoldable pub middleware : {R : Type 0} → String → (Response → R) → (String → R) → R
  unfolding resolve
  middleware presented refuse next = elim (resolve sha256_hex space keyring presented) [
    | none ↦ refuse (write_error 401 "unauthorized" "missing or invalid API key")
    | some agent_id ↦ next agent_id
  ]

  -- `POST /v1/intercept`
  unfoldable pub post_intercept :
      {B S W : Type 0}
      → Json B
      → DecisionStore S
      → WorkflowStarter W
      → Option Snapshot
      → String
      → String
      → InterceptCall B
      → S
      → W
      → (S × W) × Response
  unfolding middleware intercept
  post_intercept json store starter policy task_queue presented call s w =
      middleware presented (λ response. ((s, w), response))
        λ agent_id.
          intercept sha256_hex json store starter policy task_queue
            (record call { agent_id = some agent_id }) s w

  -- `GET /v1/decisions/{proposal_id}`
  unfoldable pub get_decisions :
      {S : Type 0} → DecisionStore S → String → S → Bool → String → Listing DecisionRecord
  unfolding middleware decisions_by_proposal
  get_decisions store presented s ended id =
      middleware presented refused λ agent_id. decisions_by_proposal store s ended id

  -- `GET /v1/audit/{proposal_id}`
  unfoldable pub get_audit :
      {S : Type 0}
      → (S → Bool → String → Result Error (List AuditRecord))
      → String
      → S
      → Bool
      → String
      → Listing AuditRecord
  unfolding middleware audit_by_proposal
  get_audit list presented s ended id =
      middleware presented refused λ agent_id. audit_by_proposal list s ended id
