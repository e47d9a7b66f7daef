-- ===== src/Policy.antt =====
-- internal/policy/schema.go: the validated policy snapshot and its accessors. A Go map or set with
-- string keys is an association list. `Snapshot` methods are the functions below; an accessor that
-- also returns `ok` returns an `Option`.
pub mod Document
pub mod Build
pub mod Validity
pub mod Loader
use sentry_gate_ai.Prelude.{String, ℕ, Bool, true, false, Option, none, some}
use sentry_gate_ai.Prelude.Assoc.{Map, lookup, has}
use sentry_gate_ai.Contracts.{CommandType}

-- `other s` is a text that is none of the three modes, the zero value `""` included.
pub data EnvironmentMode : Type 0 where
  allow require_approval deny : EnvironmentMode
  other : String → EnvironmentMode

pub record Target : Type 0 where
  pub id : String
  pub environment : String
  pub protected : Bool

-- `map[contracts.CommandType]struct{}`
abbrev pub CommandSet : Type 0
CommandSet = Map (Unit {0})

pub record Snapshot : Type 0 where
  pub version : String
  pub digest : String
  pub max_parallel_tasks : ℕ
  pub environments : Map EnvironmentMode
  pub commands : CommandSet
  pub agents : Map CommandSet
  pub targets : Map Target

unfoldable pub has_command : Snapshot → CommandType → Bool
unfolding has
has_command s c = has c s.commands

unfoldable pub has_agent : Snapshot → String → Bool
unfolding has
has_agent s agent_id = has agent_id s.agents

-- The Go code looks the agent up and returns false if it is not declared.
unfoldable pub agent_may_use : Snapshot → String → CommandType → Bool
unfolding has
agent_may_use s agent_id c = elim (lookup agent_id s.agents) [
  | none ↦ false
  | some cmds ↦ has c cmds
]

unfoldable pub target : Snapshot → String → Option Target
target s id = lookup id s.targets

unfoldable pub environment_mode : Snapshot → String → Option EnvironmentMode
environment_mode s name = lookup name s.environments
