-- ===== src/Contracts/Proposal.antt =====
-- shared/contracts/proposal.go and commands.go. A `CommandType` is a Go string.
use sentry_gate_ai.Prelude.{String}

abbrev pub CommandType : Type 0
CommandType = String

pub record AgentProposal : Type 0 where
  pub id : String
  pub type : CommandType
  pub target_id : String
  pub payload : String

-- Targets with fixed behaviour in the simulated adapter.
abbrev pub failing_node_id : String
failing_node_id = "FAILING_NODE"

abbrev pub lost_response_node_id : String
lost_response_node_id = "LOST_RESPONSE_NODE"

abbrev pub unreachable_node_id : String
unreachable_node_id = "UNREACHABLE_NODE"

abbrev pub partitioned_node_id : String
partitioned_node_id = "PARTITIONED_NODE"
