-- ===== src/Server/Queries.antt =====
-- cmd/sentrygate/handler.go: the handlers that read, and the routes behind the API key.
use sentry_gate_ai.Prelude.{String, ℕ, Bool, not, List, Option, none, some, if◌then◌else◌}
use sentry_gate_ai.Contracts.{Error, Result, ok, err, DecisionRecord, AuditRecord}
use sentry_gate_ai.Server.Request.{DecisionStore, Response, write_error, proposal_id_pattern}

-- A response of a handler that lists: an error or the rows
pub data Listing (A : Type 0) : Type 0 where
  refused : Response → Listing A
  rows : ℕ → List A → Listing A

listed : {A : Type 0} → Result Error (List A) → Listing A
listed (err e) = refused (write_error 500 "error" "internal error")
listed (ok l) = rows 200 l

-- `decisionsByProposal`
unfoldable pub decisions_by_proposal :
    {S : Type 0} → DecisionStore S → S → Bool → String → Listing DecisionRecord
unfolding listed proposal_id_pattern
decisions_by_proposal store s ended id =
    if not (proposal_id_pattern id)
    then refused (write_error 400 "invalid" "invalid proposal id")
    else listed (store.list_decisions_by_proposal s ended id)

-- `auditByProposal`; `list` is `ListByProposal` of the audit reader.
unfoldable pub audit_by_proposal :
    {S : Type 0}
    → (S → Bool → String → Result Error (List AuditRecord))
    → S
    → Bool
    → String
    → Listing AuditRecord
unfolding listed proposal_id_pattern
audit_by_proposal list s ended id =
    if not (proposal_id_pattern id)
    then refused (write_error 400 "invalid" "invalid proposal id")
    else listed (list s ended id)

-- `readyz`: the status code and text, by the answer to `Ping`
unfoldable pub readyz : Option Error → ℕ × String
readyz (some e) = (503, "audit db not ready\n")
readyz none = (200, "ready")

-- `healthz`
unfoldable pub healthz : ℕ × String
healthz = (200, "ok")
