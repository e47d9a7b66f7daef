-- ===== src/Policy/Document.antt =====
-- internal/policy/schema.go: the YAML schema as Go decodes it, the patterns of its identifiers and
-- the errors of `build`, one constructor for each message.
use sentry_gate_ai.Prelude.{String, ℕ, Bool, List, Option, ◌||◌, nat_eq}
use sentry_gate_ai.Prelude.Assoc.{Map}
use sentry_gate_ai.Prelude.Int.{ℤ}
use sentry_gate_ai.Prelude.Pattern.{one_then, is_upper, is_lower, is_digit, id_char, id_colon_char}

pub record AgentDocument : Type 0 where
  pub id : String
  pub commands : List String

-- `protected` is a pointer: `none` when the field is not given.
pub record TargetDocument : Type 0 where
  pub id : String
  pub environment : String
  pub protected : Option Bool

-- The map of environments is in some order of iteration.
pub record Document : Type 0 where
  pub version : String
  pub max_parallel_tasks : ℤ
  pub environments : Map String
  pub commands : List String
  pub agents : List AgentDocument
  pub targets : List TargetDocument

abbrev pub max_parallel_tasks_limit : ℕ
max_parallel_tasks_limit = 10000

unfoldable pub version_pattern : String → Bool
version_pattern = one_then id_colon_char id_colon_char 63

unfoldable pub environment_pattern : String → Bool
environment_pattern =
    one_then is_lower (λ c. is_lower c || is_digit c || nat_eq c b'_' || nat_eq c b'-') 31

unfoldable pub command_pattern : String → Bool
command_pattern = one_then is_upper (λ c. is_upper c || is_digit c || nat_eq c b'_') 63

unfoldable pub agent_id_pattern : String → Bool
agent_id_pattern = one_then id_char id_char 63

unfoldable pub target_id_pattern : String → Bool
target_id_pattern = one_then id_colon_char id_colon_char 127

pub data BuildError : Type 0 where
  version_required : BuildError
  version_invalid : String → BuildError
  max_parallel_tasks_range : BuildError
  no_environments : BuildError
  environment_name_invalid : String → BuildError
  environment_mode_invalid : String → String → BuildError
  no_commands : BuildError
  command_invalid command_duplicate : String → BuildError
  no_agents : BuildError
  agent_id_invalid : ℕ → String → BuildError
  agent_duplicate agent_no_commands : String → BuildError
  agent_command_unknown agent_command_duplicate : String → String → BuildError
  no_targets : BuildError
  target_id_invalid : ℕ → String → BuildError
  target_duplicate : String → BuildError
  target_environment_unknown : String → String → BuildError
  target_protected_missing : String → BuildError
