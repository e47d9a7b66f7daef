-- ===== src/Tests/Clients.antt =====
-- The Zscaler simulator at a concrete sequence of calls.
use sentry_gate_ai.Contracts.{ctx_err, ok}
use sentry_gate_ai.Proxy.Clients.Zscaler.{
  upsert_policy, zscaler_authenticate, ZscalerPolicyRequest, new_mock_zscaler_client,
  get_policy_revision, delete_policy,
}
use sentry_gate_ai.Prelude.{refl, ◌≡◌, ◌≢◌, ℕ, ◌%◌, ◌^◌, false, List, [], ◌∷◌, none}
use sentry_gate_ai.Proxy.Clients.Revisions.{
  Call, authenticate, upsert, delete, run, upserts_since_delete, revisions_count,
}
use sentry_gate_ai.Proxy.Clients.{root_core_edge_id}

abbrev request : ZscalerPolicyRequest
request = record {
  policy_id = "pol-1";
  action = "BLOCK";
  app_segment = "app";
  user_group = "";
  source_ip_cidr = "";
}

abbrev calls : List Call
calls =
    upsert false 1 request
    ∷ authenticate false 2
    ∷ upsert false 3 request
    ∷ delete false "pol-1"
    ∷ upsert false 4 request
    ∷ upsert false 5 request
    ∷ []

two_upserts : get_policy_revision (run calls new_mock_zscaler_client) false "pol-1" ≡ ok 2
unfolding get_policy_revision ctx_err upsert_policy delete_policy zscaler_authenticate
two_upserts = refl

revisions_count_example :
    ((r : ℕ)
      → get_policy_revision (run calls new_mock_zscaler_client) false "pol-1" ≡ ok r
      → r ≡ upserts_since_delete "pol-1" calls new_mock_zscaler_client 0 % 2 ^ 64)
    × ((delete_policy (run calls new_mock_zscaler_client) false root_core_edge_id).0
        ≡ run calls new_mock_zscaler_client)
    × ((delete_policy (run calls new_mock_zscaler_client) false root_core_edge_id).1 ≢ none)
revisions_count_example = revisions_count calls false "pol-1"
