-- ===== src/Tests/Stores.antt =====
-- The properties of `MemoryStore` and of the audit table at concrete inputs.
use sentry_gate_ai.Workflows.Audit.{stamped}
use sentry_gate_ai.Prelude.{
  List, String, ◌≡◌, ◌≢◌, ◌⊎◌, ◌↔◌, refl, true, false, some, none, [], ◌∷◌,
}
use sentry_gate_ai.Workflows.Audit.Trail.{
  Write, write_all, accepted, rows_of, list_by_proposal-write_all,
}
use sentry_gate_ai.Workflows.Audit.{new_memory_audit_store, list_by_proposal}
use sentry_gate_ai.Contracts.{
  AuditRecord, AuditPhase, AuditVerdict, ctx_err, validate, ok, err, index_panic, DecisionRecord,
  record_equal, owner_valid,
}
use sentry_gate_ai.Prelude.Assoc.{lookup, has}
use sentry_gate_ai.Decision.Claim.Contract.{IsFree}
use sentry_gate_ai.Decision.Store.{
  MemoryStore, new_memory_store, append_decision, get_decision, claim_execution,
}
use sentry_gate_ai.Decision.Store.Records.{
  IsIndexed, new_memory_store-IsIndexed, append_decision-IsIndexed, get-append_self, append_twice,
  no_index_panic,
}
use sentry_gate_ai.Decision.Store.Claims.{memory_claim_of, IsHeldBy, claim_execution_iff}
use sentry_gate_ai.Tests.{allowed, owner}

-- The store that holds one ingress decision.
abbrev pub one_decision : MemoryStore
one_decision = record new_memory_store { records = allowed ∷ []; by_id = ("dec-1", 0) ∷ [] }

append_runs : append_decision new_memory_store false allowed ≡ (one_decision, none)
unfolding append_decision ctx_err validate lookup
append_runs = refl

get_runs : get_decision one_decision false "dec-1" ≡ ok allowed
unfolding get_decision ctx_err lookup
get_runs = refl

append_decision-IsIndexed_example : IsIndexed (append_decision new_memory_store false allowed).0
append_decision-IsIndexed_example =
    append_decision-IsIndexed new_memory_store false allowed new_memory_store-IsIndexed

get-append_self_example :
    (r : DecisionRecord) × (get_decision one_decision false "dec-1" ≡ ok r)
    × (record_equal r allowed ≡ true)
get-append_self_example =
    get-append_self new_memory_store one_decision allowed new_memory_store-IsIndexed append_runs

append_twice_example : append_decision one_decision false allowed ≡ (one_decision, none)
append_twice_example =
    append_twice new_memory_store one_decision allowed new_memory_store-IsIndexed append_runs

no_index_panic_example :
    ((append_decision new_memory_store false allowed).1 ≢ some index_panic)
    × (get_decision new_memory_store false "dec-1" ≢ err index_panic)
no_index_panic_example =
    no_index_panic new_memory_store false allowed "dec-1" new_memory_store-IsIndexed

claim_execution_iff_example : ((claim_execution one_decision false "dec-1" owner 9).1 ≡ none) ↔ (
    (◌≢◌ {A = String} "dec-1" "")
    × (owner_valid owner ≡ true)
    × (has "dec-1" one_decision.by_id ≡ true)
    × (IsFree (memory_claim_of one_decision "dec-1")
        ⊎ IsHeldBy owner (memory_claim_of one_decision "dec-1")))
claim_execution_iff_example = claim_execution_iff one_decision "dec-1" owner 9

claim_runs : (claim_execution one_decision false "dec-1" owner 9).1 ≡ none
unfolding claim_execution ctx_err owner_valid lookup
claim_runs = refl

abbrev row : AuditRecord
row = record {
  record_id = "r1";
  proposal_id = "p1";
  workflow_id = "wf-1";
  run_id = "run-1";
  phase = AuditPhase.dispatch;
  verdict = AuditVerdict.pass;
  target_id = "node-1";
  command = "RESTART";
  detail = "";
  recorded_at = 0;
}

-- A row, a row of another proposal, and one that is refused.
abbrev writes : List Write
writes =
    record { ended = false; at = 9; row = row }
    ∷ record { ended = false; at = 10; row = record row { proposal_id = "p2" } }
    ∷ record { ended = true; at = 11; row = row }
    ∷ []

list_by_proposal-write_all_example :
    list_by_proposal (write_all new_memory_audit_store writes) false "p1"
    ≡ ok (rows_of "p1" (accepted writes))
list_by_proposal-write_all_example = list_by_proposal-write_all writes "p1"

one_row : rows_of "p1" (accepted writes) ≡ record row { recorded_at = 9 } ∷ []
unfolding rows_of accepted stamped
one_row = refl
