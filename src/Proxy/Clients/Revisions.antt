-- ===== src/Proxy/Clients/Revisions.antt =====
-- The revisions of the Zscaler simulator under sequences of calls.
use sentry_gate_ai.Prelude.{
  eq_refl, ◌∙◌, String, ◌≡◌, ◌≢◌, ℕ, suc, ◌%◌, ◌^◌, Bool, List, [], ◌∷◌, Option, none, some, arith,
  eq_iff, ◌==◌, if◌then◌else◌,
}
use sentry_gate_ai.Prelude.Assoc.{lookup, lookup-insert, lookup-erase}
use sentry_gate_ai.Contracts.{Error, Result, ok, err, Time}
use sentry_gate_ai.Proxy.Clients.Zscaler.{
  MockZscalerClient, new_mock_zscaler_client, ZscalerPolicyRequest, zscaler_authenticate,
  next_policy, upsert_policy, delete_policy, get_policy_revision, revision_of,
}
use sentry_gate_ai.Proxy.Clients.{root_core_edge_id}

-- A method that writes, with its arguments
pub data Call : Type 0 where
  authenticate : Bool → Time → Call
  upsert : Bool → Time → ZscalerPolicyRequest → Call
  delete : Bool → String → Call

abbrev failure : {A : Type 0} → Result Error A → Option Error
failure (ok a) = none
failure (err e) = some e

abbrev pub step : Call → MockZscalerClient → MockZscalerClient × Option Error
step (authenticate ended now) c = zscaler_authenticate c ended now
step (upsert ended now req) c = let (c', r) = upsert_policy c ended now req in (c', failure r)
step (delete ended id) c = delete_policy c ended id

abbrev pub run : List Call → MockZscalerClient → MockZscalerClient
run [] c = c
run (x ∷ xs) c = run xs (step x c).0

-- The count of a policy after one call, by whether the call succeeded
abbrev pub counted : String → ℕ → Call → Option Error → ℕ
counted id n (authenticate ended now) e = n
counted id n (upsert ended now req) none = if req.policy_id == id then suc n else n
counted id n (delete ended other) none = if other == id then 0 else n
counted id n x (some e) = n

-- The successful upserts of a policy since its last successful delete
abbrev pub upserts_since_delete : String → List Call → MockZscalerClient → ℕ → ℕ
upserts_since_delete id [] c n = n
upserts_since_delete id (x ∷ xs) c n =
    let (c', e) = step x c in upserts_since_delete id xs c' (counted id n x e)

abbrev revision : MockZscalerClient → String → ℕ
revision c id = revision_of (lookup id c.policies)

-- One call counts its policy, modulo the width of a revision.
step-counts :
    (id : String) (n : ℕ) (x : Call) (c : MockZscalerClient)
    → revision c id ≡ n % 2 ^ 64
    → revision (step x c).0 id ≡ counted id n x (step x c).1 % 2 ^ 64
unfolding zscaler_authenticate next_policy upsert_policy delete_policy
step-counts id n (authenticate ended now) c h = ground arith
step-counts id n (upsert ended now req) c h = ground (
  arith,
  lookup-insert req.policy_id id (next_policy c req.policy_id now) c.policies,
  eq_iff req.policy_id id,
)
step-counts id n (delete ended other) c h =
    ground (arith, lookup-erase other id c.policies, eq_iff other id)

run-counts :
    (id : String) (xs : List Call) (c : MockZscalerClient) (n : ℕ)
    → revision c id ≡ n % 2 ^ 64
    → revision (run xs c) id ≡ upserts_since_delete id xs c n % 2 ^ 64
run-counts id [] c n h = h
run-counts id (x ∷ xs) c n h =
    run-counts id xs (step x c).0 (counted id n x (step x c).1) (step-counts id n x c h)

read-revision :
    (c : MockZscalerClient) (ended : Bool) (id : String) (r : ℕ)
    → get_policy_revision c ended id ≡ ok r
    → r ≡ revision c id
unfolding get_policy_revision
read-revision c ended id r h = ground arith

-- After any calls to a new client, a revision that GetPolicyRevision returns is the number of
-- successful upserts of that policy since its last successful delete, modulo 2 ^ 64, and a delete of
-- ROOT_CORE_EDGE fails and changes nothing.
pub revisions_count :
    (xs : List Call) (ended : Bool) (id : String)
    → let c = run xs new_mock_zscaler_client in
      ((r : ℕ)
        → get_policy_revision c ended id ≡ ok r
        → r ≡ upserts_since_delete id xs new_mock_zscaler_client 0 % 2 ^ 64)
      × ((delete_policy c ended root_core_edge_id).0 ≡ c)
      × ((delete_policy c ended root_core_edge_id).1 ≢ none)
unfolding delete_policy lookup
revisions_count xs ended id =
    let c = run xs new_mock_zscaler_client in
    (
      λ r h.
          read-revision c ended id r h ∙ run-counts id xs new_mock_zscaler_client 0 (omega arith),
      ground (arith, eq_refl root_core_edge_id),
      ground (arith, eq_refl root_core_edge_id),
    )
