-- ===== src/Tests.antt =====
-- The data that the examples share, and the examples of each part.
mod Decisions
mod Stores
mod Auth
mod Loader
mod Workflows
mod Saga
mod Sqlite
mod Server
mod Promises
mod Clients
mod Suite
mod Config
use sentry_gate_ai.Prelude.{String, ℕ, Bool, true, false, List, [], ◌∷◌, some, ltb, if◌then◌else◌}
use sentry_gate_ai.Prelude.Int.{pos}
use sentry_gate_ai.Prelude.Lists.{length}
use sentry_gate_ai.Contracts.{
  AgentProposal, ExecutionRequest, DecisionRecord, DecisionStage, Verdict, ReasonCode, ClaimOwner,
  Result, Error, ok,
}
use sentry_gate_ai.Policy.{Snapshot, EnvironmentMode}
use sentry_gate_ai.Policy.Document.{Document}

-- A stand-in for the digest that tells long inputs from short ones.
abbrev pub digest : List ℕ → String
digest l = if ltb 200 (length l) then "long" else "short"

abbrev pub restart : AgentProposal
restart = record { id = "p1"; type = "RESTART"; target_id = "node-1"; payload = "{}" }

abbrev pub document : Document
document = record {
  version = "1";
  max_parallel_tasks = pos 4;
  environments = ("dev", "allow") ∷ ("prod", "require_approval") ∷ [];
  commands = "RESTART" ∷ "SCALE" ∷ [];
  agents = record { id = "agent-1"; commands = "RESTART" ∷ [] } ∷ [];
  targets =
      record { id = "node-1"; environment = "dev"; protected = some false }
      ∷ record { id = "node-2"; environment = "prod"; protected = some false }
      ∷ [];
}

abbrev pub snapshot : Snapshot
snapshot = record {
  version = "1";
  digest = "";
  max_parallel_tasks = 4;
  environments = ("dev", EnvironmentMode.allow) ∷ ("prod", EnvironmentMode.require_approval) ∷ [];
  commands = ("RESTART", tt) ∷ ("SCALE", tt) ∷ [];
  agents = ("agent-1", ("RESTART", tt) ∷ []) ∷ [];
  targets =
      ("node-1", record { id = "node-1"; environment = "dev"; protected = false })
      ∷ ("node-2", record { id = "node-2"; environment = "prod"; protected = false })
      ∷ [];
}

abbrev pub request : ExecutionRequest
request = record {
  agent_id = "agent-1";
  proposal = restart;
  ingress_decision_id = "dec-1";
  request_hash = "short";
}

abbrev pub forged : ExecutionRequest
forged = record request { request_hash = "long" }

abbrev pub allowed : DecisionRecord
allowed = record {
  decision_id = "dec-1";
  stage = DecisionStage.ingress;
  proposal_id = "p1";
  agent_id = "agent-1";
  request_hash = "short";
  command = "RESTART";
  target_id = "node-1";
  environment = "dev";
  verdict = Verdict.allow;
  reasons = ReasonCode.environment_allowed ∷ [];
  policy_version = "1";
  policy_digest = "";
  workflow_id = "wf-1";
  trace_id = "";
  recorded_at = 7;
}

abbrev pub owner : ClaimOwner
owner = record { workflow_id = "wf-1"; run_id = "run-1"; token = "exe_1" }

abbrev pub loaded : Result Error DecisionRecord
loaded = ok allowed
