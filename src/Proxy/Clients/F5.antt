-- ===== src/Proxy/Clients/F5.antt =====
-- proxy/clients.go: `MockF5Client`.
use sentry_gate_ai.Prelude.{
  String, Bool, true, false, ◌||◌, ◌==◌, List, [], Option, none, some, ◌+++◌, if◌then◌else◌,
}
use sentry_gate_ai.Prelude.Assoc.{Map, insert}
use sentry_gate_ai.Contracts.{
  Error, sentinel, wrap, ctx_err, auth_handshake_failed, non_retryable_infra_error, Result, ok, err,
  Time,
}
use sentry_gate_ai.Workflows.Audit.{decimal}
use sentry_gate_ai.Proxy.Clients.{unix_nano, require_auth}

pub record CertUpdateRequest : Type 0 where
  pub virtual_server : String
  pub common_name : String
  pub cert_pem : String
  pub key_pem : String
  pub chain_pem : String
  pub acme_order_id : String

pub record CertUpdateResult : Type 0 where
  pub profile_name : String
  pub applied_at : Time
  pub fingerprint_sha : String
  pub tls_version : String

pub record RoutingUpdateRequest : Type 0 where
  pub pool_name : String
  pub members : List String
  pub persist_key : String

pub record MockF5Client : Type 0 where
  pub authenticated : Bool
  pub token : String
  pub applied_certs : Map CertUpdateResult
  pub fail_auth : Bool
  pub fail_cert_push : Bool

-- `NewMockF5Client`
abbrev pub new_mock_f5_client : MockF5Client
new_mock_f5_client = record {
  authenticated = false;
  token = "";
  applied_certs = [];
  fail_auth = false;
  fail_cert_push = false;
}

-- `MockF5Client.Authenticate`
unfoldable pub f5_authenticate : MockF5Client → Bool → Time → MockF5Client × Option Error
unfolding decimal unix_nano
f5_authenticate c ended now = elim (ctx_err ended) [
  | some e ↦ (c, some e)
  | none ↦ if c.fail_auth then (c, some (sentinel auth_handshake_failed)) else (
    record c { token = "f5-mock-token-" +++ decimal (unix_nano now); authenticated = true },
    none,
  )
]

cert_result : CertUpdateRequest → Time → CertUpdateResult
cert_result req now = record {
  profile_name = "clientssl-" +++ req.virtual_server;
  applied_at = now;
  fingerprint_sha = "sha256:mock-" +++ req.common_name +++ "-" +++ req.acme_order_id;
  tls_version = "TLS1.3";
}

push_cert : MockF5Client → CertUpdateRequest → Time → MockF5Client × Result Error CertUpdateResult
unfolding cert_result insert
push_cert c req now =
    if c.fail_cert_push
    then (c, err (sentinel non_retryable_infra_error))
    else if req.common_name == "" || req.cert_pem == "" || req.key_pem == ""
    then (
      c,
      err (
          wrap "" (sentinel non_retryable_infra_error)
            ": incomplete Let's Encrypt certificate bundle"),
    )
    else (
      record c { applied_certs = insert req.virtual_server (cert_result req now) c.applied_certs },
      ok (cert_result req now),
    )

-- `MockF5Client.UpdateCertificate`
unfoldable pub update_certificate :
    MockF5Client → Bool → Time → CertUpdateRequest → MockF5Client × Result Error CertUpdateResult
unfolding require_auth push_cert
update_certificate c ended now req = elim (ctx_err ended) [
  | some e ↦ (c, err e)
  | none ↦ elim (require_auth c.authenticated c.token) [
    | some e ↦ (c, err e)
    | none ↦ push_cert c req now
  ]
]

-- `MockF5Client.ModifyRouting`
unfoldable pub modify_routing : MockF5Client → Bool → RoutingUpdateRequest → Option Error
unfolding require_auth
modify_routing c ended req = elim (ctx_err ended) [
  | some e ↦ some e
  | none ↦ elim (require_auth c.authenticated c.token) [
    | some e ↦ some e
    | none ↦
        if req.pool_name == ""
        then some (wrap "" (sentinel non_retryable_infra_error) ": empty pool name")
        else none
  ]
]

-- `MockF5Client.HealthProbe`
unfoldable pub health_probe : MockF5Client → Bool → Option Error
unfolding require_auth
health_probe c ended = elim (ctx_err ended) [
  | some e ↦ some e
  | none ↦ require_auth c.authenticated c.token
]
