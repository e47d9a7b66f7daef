-- ===== src/Decision/Ingress/Content.antt =====
-- An ingress ALLOW is bound to the content of the proposal that it was given for.
use sentry_gate_ai.Prelude.{String, ℕ, List, ◌≡◌, none, ◌∙◌, sym}
use sentry_gate_ai.Contracts.{AgentProposal, DecisionRecord, ExecutionRequest}
use sentry_gate_ai.Decision.Hash.{hashed_fields, request_encoding, request_hash}
use sentry_gate_ai.Decision.Hash.Fields.{AllShort, request_encoding_inj}
use sentry_gate_ai.Decision.Ingress.{verify_ingress}
use sentry_gate_ai.Decision.Ingress.Binding.{verify_ingress_iff}

-- If the record carries the hash of the proposal `decided`, and SHA-256 does not collide on the two
-- encodings, `VerifyIngress` passes only a request with that very proposal: no field can be changed
-- between ingress and execution. The fields are shorter than 2^64 bytes.
pub verified_proposal_unchanged :
    (sha256_hex : List ℕ → String) (rec : DecisionRecord) (req : ExecutionRequest)
    (workflow_id : String) (decided : AgentProposal)
    → AllShort (hashed_fields decided)
    → AllShort (hashed_fields req.proposal)
    → (sha256_hex (request_encoding decided) ≡ sha256_hex (request_encoding req.proposal)
        → request_encoding decided ≡ request_encoding req.proposal)
    → rec.request_hash ≡ request_hash sha256_hex decided
    → verify_ingress sha256_hex rec req workflow_id ≡ none
    → decided ≡ req.proposal
unfolding request_hash
verified_proposal_unchanged sha256_hex rec req workflow_id decided hd hr no_collision hash passed =
    let backing = (verify_ingress_iff sha256_hex rec req workflow_id).0 passed in
    request_encoding_inj decided req.proposal hd hr (no_collision (sym hash ∙ backing.hash))
