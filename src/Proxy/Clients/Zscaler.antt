-- ===== src/Proxy/Clients/Zscaler.antt =====
-- proxy/clients.go: `MockZscalerClient`.
use sentry_gate_ai.Prelude.{
  String, ℕ, ◌+◌, ◌%◌, ◌^◌, Bool, true, false, ◌||◌, ◌==◌, [], Option, none, some, ◌+++◌,
  if◌then◌else◌,
}
use sentry_gate_ai.Prelude.Assoc.{Map, lookup, insert, erase}
use sentry_gate_ai.Contracts.{
  Error, sentinel, wrap, text, quote, ctx_err, auth_handshake_failed, non_retryable_infra_error,
  root_core_mutation, Result, ok, err, Time,
}
use sentry_gate_ai.Workflows.Audit.{decimal}
use sentry_gate_ai.Proxy.Clients.{unix_nano, require_auth, root_core_edge_id}

pub record ZscalerPolicyRequest : Type 0 where
  pub policy_id : String
  pub action : String
  pub app_segment : String
  pub user_group : String
  pub source_ip_cidr : String

pub record ZscalerPolicyResult : Type 0 where
  pub policy_id : String
  pub revision : ℕ
  pub applied_at : Time

pub record MockZscalerClient : Type 0 where
  pub authenticated : Bool
  pub session_token : String
  pub policies : Map ZscalerPolicyResult
  pub fail_auth : Bool

-- `NewMockZscalerClient`
abbrev pub new_mock_zscaler_client : MockZscalerClient
new_mock_zscaler_client = record {
  authenticated = false;
  session_token = "";
  policies = [];
  fail_auth = false;
}

-- `MockZscalerClient.Authenticate`
unfoldable pub zscaler_authenticate :
    MockZscalerClient → Bool → Time → MockZscalerClient × Option Error
unfolding decimal unix_nano
zscaler_authenticate c ended now = elim (ctx_err ended) [
  | some e ↦ (c, some e)
  | none ↦ if c.fail_auth then (c, some (sentinel auth_handshake_failed)) else (
    record c { session_token = "zs-session-" +++ decimal (unix_nano now); authenticated = true },
    none,
  )
]

abbrev pub revision_of : Option ZscalerPolicyResult → ℕ
revision_of none = 0
revision_of (some p) = p.revision

unfoldable pub next_policy : MockZscalerClient → String → Time → ZscalerPolicyResult
unfolding lookup
next_policy c id now = record {
  policy_id = id;
  revision = (revision_of (lookup id c.policies) + 1) % 2 ^ 64;
  applied_at = now;
}

-- `MockZscalerClient.UpsertPolicy`
unfoldable pub upsert_policy :
    MockZscalerClient
    → Bool
    → Time
    → ZscalerPolicyRequest
    → MockZscalerClient × Result Error ZscalerPolicyResult
unfolding require_auth next_policy insert
upsert_policy c ended now req = elim (ctx_err ended) [
  | some e ↦ (c, err e)
  | none ↦ elim (require_auth c.authenticated c.session_token) [
    | some e ↦ (c, err e)
    | none ↦
        if req.policy_id == "" || req.app_segment == ""
        then (
          c,
          err (
              wrap "" (sentinel non_retryable_infra_error)
                ": incomplete Zero-Trust policy payload"),
        )
        else (
          record c { policies = insert req.policy_id (next_policy c req.policy_id now) c.policies },
          ok (next_policy c req.policy_id now),
        )
  ]
]

-- `MockZscalerClient.DeletePolicy`
unfoldable pub delete_policy : MockZscalerClient → Bool → String → MockZscalerClient × Option Error
unfolding require_auth erase
delete_policy c ended id = elim (ctx_err ended) [
  | some e ↦ (c, some e)
  | none ↦ elim (require_auth c.authenticated c.session_token) [
    | some e ↦ (c, some e)
    | none ↦
        if id == root_core_edge_id
        then (c, some (sentinel root_core_mutation))
        else (record c { policies = erase id c.policies }, none)
  ]
]

-- `MockZscalerClient.GetPolicyRevision`
unfoldable pub get_policy_revision : MockZscalerClient → Bool → String → Result Error ℕ
unfolding require_auth lookup
get_policy_revision c ended id = elim (ctx_err ended) [
  | some e ↦ err e
  | none ↦ elim (require_auth c.authenticated c.session_token) [
    | some e ↦ err e
    | none ↦ elim (lookup id c.policies) [
      | none ↦ err (text ("policy " +++ quote id +++ " not found"))
      | some p ↦ ok p.revision
    ]
  ]
]
