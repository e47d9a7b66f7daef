-- ===== src/Decision.antt =====
-- internal/decision: the evaluation of a proposal against a snapshot, the request hash, the check
-- of an execution against its recorded ingress decision, and the stores.
pub mod Hash
pub mod Evaluate
pub mod Ingress
pub mod Claim
pub mod Store
pub mod Suite
