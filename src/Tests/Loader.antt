-- ===== src/Tests/Loader.antt =====
-- The properties of the policy loader at concrete inputs.
use sentry_gate_ai.Policy.Build.{build_agents}
use sentry_gate_ai.Policy.Build.{build_commands}
use sentry_gate_ai.Policy.Build.{build_environments}
use sentry_gate_ai.Policy.Build.{build_targets}
use sentry_gate_ai.Policy.Document.{agent_id_pattern}
use sentry_gate_ai.Policy.Document.{command_pattern}
use sentry_gate_ai.Policy.Document.{environment_pattern}
use sentry_gate_ai.Policy.Document.{target_id_pattern}
use sentry_gate_ai.Policy.Document.{version_pattern}
use sentry_gate_ai.Prelude.Assoc.{lookup}
use sentry_gate_ai.Prelude.Pattern.{one_then}
use sentry_gate_ai.Prelude.{ℕ, false, List, [], ◌∷◌, none, some, ◌≡◌, refl, if◌then◌else◌, ltb}
use sentry_gate_ai.Prelude.Lists.{length}
use sentry_gate_ai.Contracts.{ok, err}
use sentry_gate_ai.Policy.Loader.{Decoded, PolicyError, Loader, FileRead, new_loader, reload}
use sentry_gate_ai.Policy.Loader.Reloads.{IsReloaded, reload-IsReloaded}
use sentry_gate_ai.Policy.Loader.Loop.{
  Process, start, close_stop, exit_loop, tick, here, next, closes, ticks, exits, IsSafe,
  Reach-IsSafe,
}
use sentry_gate_ai.Prelude.Int.{pos}
use sentry_gate_ai.Tests.{digest, document, snapshot}

-- Every file of two bytes or more holds the same document.
abbrev decode : List ℕ → Decoded
decode raw = if ltb (length raw) 2 then Decoded.empty else Decoded.document document false

abbrev file : FileRead
file = ok (1 ∷ 2 ∷ [])

abbrev started : Loader
started = record {
  current = record snapshot { digest = "short" };
  loaded_at = 5;
  last_err = none;
  last_err_at = 0;
  last_bad_key = "";
}

started_runs : new_loader digest decode file 5 ≡ ok started
unfolding new_loader version_pattern one_then build_environments environment_pattern build_commands
    command_pattern lookup build_agents agent_id_pattern build_targets target_id_pattern
started_runs = refl

-- The file is gone, then empty, then back.
-- One failed reload, then `Close`, after which the goroutine returns
abbrev process : Process
process = exit_loop (close_stop (tick digest decode (start started (pos 5)) (err "no such file") 6))

Reach-IsSafe_example : IsSafe digest decode process
unfolding start
Reach-IsSafe_example = Reach-IsSafe digest decode file 5 started (pos 5) process started_runs (
    next (next (next here (ticks (err "no such file") 6 refl refl)) (closes refl))
      (exits refl refl refl))

reload-IsReloaded_example : IsReloaded digest decode started (err "no such file") 6
reload-IsReloaded_example = reload-IsReloaded digest decode started (err "no such file") 6

unreadable_runs :
    (reload digest decode started (err "no such file") 6).1
    ≡ some (PolicyError.unreadable "policy: read: no such file")
unfolding reload
unreadable_runs = refl
