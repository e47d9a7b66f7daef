-- ===== src/Tests/Config.antt =====
-- Settings at concrete environments.
use sentry_gate_ai.Prelude.{String, ◌≡◌, refl, Option, none, some, ◌==◌, if◌then◌else◌}
use sentry_gate_ai.Prelude.Int.{ℤ, pos, negsuc}
use sentry_gate_ai.Config.{seconds_duration, load_worker_from_env}

-- A number of seconds beyond the int64 nanoseconds wraps around to a negative duration.
seconds_duration_wraps : seconds_duration (pos 9223372037) ≡ negsuc 9223372036709551615
unfolding seconds_duration
seconds_duration_wraps = refl

abbrev getenv : String → String
getenv key = if key == "SENTRYGATE_POLICY_RELOAD" then "30" else ""

abbrev atoi : String → Option ℤ
atoi s = if s == "30" then some (pos 30) else none

plain_seconds : (load_worker_from_env getenv (λ s. none) atoi).policy_reload_every ≡ pos 30000000000
unfolding load_worker_from_env
plain_seconds = refl
