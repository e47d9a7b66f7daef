-- ===== src/Policy/Build.antt =====
-- internal/policy/schema.go: `build`, which validates a decoded document and makes the snapshot.
-- Each loop of the Go function is a function over the rest of its list and the map built so far.
-- The digest is set by `Parse`; `build` leaves it empty.
use sentry_gate_ai.Prelude.{
  String, ℕ, suc, Bool, true, false, not, List, [], ◌∷◌, Option, none, some, ◌==◌, ◌||◌,
  if◌then◌else◌,
}
use sentry_gate_ai.Prelude.Assoc.{Map, has, insert}
use sentry_gate_ai.Prelude.Int.{ℤ, pos, negsuc, int_lt, int_gt}
use sentry_gate_ai.Contracts.{Result, ok, err}
use sentry_gate_ai.Policy.{EnvironmentMode, Target, CommandSet, Snapshot}
use sentry_gate_ai.Policy.Document.{
  Document, AgentDocument, TargetDocument, BuildError, max_parallel_tasks_limit, version_pattern,
  environment_pattern, command_pattern, agent_id_pattern, target_id_pattern,
}

infixl 5 ◌>>=◌
abbrev pub ◌>>=◌ {ℓ} : {E A B : Type ℓ} → Result E A → (A → Result E B) → Result E B
ok a >>= f = f a
err e >>= f = err e

-- `EnvironmentMode(mode)` with the cases of the switch
unfoldable pub mode_of : String → EnvironmentMode
mode_of mode =
    if mode == "allow"
    then EnvironmentMode.allow
    else if mode == "require_approval"
    then EnvironmentMode.require_approval
    else if mode == "deny"
    then EnvironmentMode.deny
    else EnvironmentMode.other mode

abbrev pub declared_mode : EnvironmentMode → Bool
declared_mode (EnvironmentMode.other _) = false
declared_mode _ = true

unfoldable pub build_environments :
    Map String → Map EnvironmentMode → Result BuildError (Map EnvironmentMode)
unfolding mode_of insert
build_environments [] done = ok done
build_environments ((name, mode) ∷ rest) done =
    let next = build_environments rest (insert name (mode_of mode) done) in
    if not (environment_pattern name)
    then err (BuildError.environment_name_invalid name)
    else if declared_mode (mode_of mode)
    then next
    else err (BuildError.environment_mode_invalid name mode)

unfoldable pub build_commands : List String → CommandSet → Result BuildError CommandSet
unfolding has insert
build_commands [] done = ok done
build_commands (c ∷ rest) done =
    let next = build_commands rest (insert c tt done) in
    if not (command_pattern c)
    then err (BuildError.command_invalid c)
    else if has c done
    then err (BuildError.command_duplicate c)
    else next

-- The commands of one agent.
unfoldable pub build_allowed :
    CommandSet → String → List String → CommandSet → Result BuildError CommandSet
unfolding has insert
build_allowed catalogue id [] done = ok done
build_allowed catalogue id (c ∷ rest) done =
    let next = build_allowed catalogue id rest (insert c tt done) in
    if not (has c catalogue)
    then err (BuildError.agent_command_unknown id c)
    else if has c done
    then err (BuildError.agent_command_duplicate id c)
    else next

abbrev is_empty : {A : Type 0} → List A → Bool
is_empty [] = true
is_empty (_ ∷ _) = false

unfoldable pub build_agents :
    CommandSet → ℕ → List AgentDocument → Map CommandSet → Result BuildError (Map CommandSet)
unfolding has insert build_allowed
build_agents catalogue i [] done = ok done
build_agents catalogue i (a ∷ rest) done =
    if not (agent_id_pattern a.id)
    then err (BuildError.agent_id_invalid i a.id)
    else if has a.id done
    then err (BuildError.agent_duplicate a.id)
    else if is_empty a.commands
    then err (BuildError.agent_no_commands a.id)
    else (build_allowed catalogue a.id a.commands [] >>= λ allowed.
        build_agents catalogue (suc i) rest (insert a.id allowed done))

add_target : TargetDocument → Map Target → Option Bool → Result BuildError (Map Target)
unfolding insert
add_target t done none = err (BuildError.target_protected_missing t.id)
add_target t done (some p) =
    ok (insert t.id (record { id = t.id; environment = t.environment; protected = p }) done)

unfoldable pub build_targets :
    Map EnvironmentMode → ℕ → List TargetDocument → Map Target → Result BuildError (Map Target)
unfolding has add_target
build_targets environments i [] done = ok done
build_targets environments i (t ∷ rest) done =
    if not (target_id_pattern t.id)
    then err (BuildError.target_id_invalid i t.id)
    else if has t.id done
    then err (BuildError.target_duplicate t.id)
    else if not (has t.environment environments)
    then err (BuildError.target_environment_unknown t.id t.environment)
    else (add_target t done t.protected >>= λ done'. build_targets environments (suc i) rest done')

-- A list that must not be empty, then its loop.
abbrev build_nonempty :
    {A B : Type 0} → BuildError → List A → Result BuildError B → Result BuildError B
build_nonempty e [] loop = err e
build_nonempty e (_ ∷ _) loop = loop

-- The empty string is tested first, then the pattern, the bound and the four lists in turn.
unfoldable pub build_lists : Document → ℕ → Result BuildError Snapshot
build_lists doc n = do
  environments ←
      build_nonempty BuildError.no_environments doc.environments
        (build_environments doc.environments [])
  commands ← build_nonempty BuildError.no_commands doc.commands (build_commands doc.commands [])
  agents ← build_nonempty BuildError.no_agents doc.agents (build_agents commands 0 doc.agents [])
  targets ←
      build_nonempty BuildError.no_targets doc.targets (build_targets environments 0 doc.targets [])
  ok (record {
    version = doc.version;
    digest = "";
    max_parallel_tasks = n;
    environments = environments;
    commands = commands;
    agents = agents;
    targets = targets;
  })

-- `max_parallel_tasks` within its bounds, as a natural number.
abbrev pub task_count : ℤ → ℕ
task_count (pos n) = n
task_count (negsuc _) = 0

unfoldable pub build : Document → Result BuildError Snapshot
unfolding build_lists
build doc =
    if doc.version == ""
    then err BuildError.version_required
    else if not (version_pattern doc.version)
    then err (BuildError.version_invalid doc.version)
    else if int_lt doc.max_parallel_tasks 1
        || int_gt doc.max_parallel_tasks max_parallel_tasks_limit
    then err BuildError.max_parallel_tasks_range
    else build_lists doc (task_count doc.max_parallel_tasks)
