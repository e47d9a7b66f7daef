-- ===== src/Config.antt =====
-- internal/config/config.go: the settings of the two processes, read from the environment. `getenv` is
-- os.Getenv, which gives "" for a variable that is not set; time.ParseDuration and strconv.Atoi are
-- the other parameters. A duration is an int64 of nanoseconds.
use sentry_gate_ai.Prelude.{
  String, ℕ, ◌-◌, ◌*◌, ◌%◌, ◌^◌, ◌≡◌, ◌<◌, arith, Option, none, some, ◌==◌, ltb, if◌then◌else◌,
}
use sentry_gate_ai.Prelude.Int.{ℤ, pos, negsuc}
use sentry_gate_ai.Contracts.{Result, ok, err, Error, text}

-- An int64 from its 64 bits
unfoldable pub int64_of_bits : ℕ → ℤ
int64_of_bits b = if ltb b (2 ^ 63) then pos b else negsuc (2 ^ 64 - 1 - b)

-- The 64 bits of an integer
unfoldable pub bits_of : ℤ → ℕ
bits_of (pos n) = n % 2 ^ 64
bits_of (negsuc n) = 2 ^ 64 - 1 - n % 2 ^ 64

-- `time.Duration(n) * time.Second`
unfoldable pub seconds_duration : ℤ → ℤ
unfolding int64_of_bits bits_of
seconds_duration n = int64_of_bits (bits_of n * 1000000000 % 2 ^ 64)

pub record Config : Type 0 where
  pub addr : String
  pub agent_keys : String
  pub temporal_host_port : String
  pub temporal_namespace : String
  pub task_queue : String
  pub policy_path : String
  pub audit_db_path : String
  pub otel_service_name : String
  pub otel_exporter : String
  pub shutdown_timeout : ℤ
  pub policy_reload_every : ℤ

-- `envOr`
abbrev pub env_or : (String → String) → String → String → String
env_or getenv key fallback = if getenv key == "" then fallback else getenv key

module _ (getenv : String → String) (parse_duration atoi : String → Option ℤ) where
  -- `durationOr`
  unfoldable pub duration_or : String → ℤ → ℤ
  unfolding seconds_duration
  duration_or key fallback =
      if getenv key == "" then fallback else elim (parse_duration (getenv key)) [
        | some d ↦ d
        | none ↦ elim (atoi (getenv key)) [ some n ↦ seconds_duration n | none ↦ fallback ]
      ]

  -- `baseFromEnv`
  unfoldable pub base_from_env : Config
  unfolding duration_or
  base_from_env = record {
    addr = env_or getenv "SENTRYGATE_ADDR" ":8080";
    agent_keys = "";
    temporal_host_port = env_or getenv "TEMPORAL_HOST_PORT" "localhost:7233";
    temporal_namespace = env_or getenv "TEMPORAL_NAMESPACE" "default";
    task_queue = env_or getenv "TEMPORAL_TASK_QUEUE" "sentrygate-saga";
    policy_path = env_or getenv "SENTRYGATE_POLICY_PATH" "policies/default.yaml";
    audit_db_path = env_or getenv "SENTRYGATE_AUDIT_DB" "data/audit.db";
    otel_service_name = env_or getenv "OTEL_SERVICE_NAME" "sentrygate";
    otel_exporter = env_or getenv "OTEL_EXPORTER" "stdout";
    shutdown_timeout = duration_or "SENTRYGATE_SHUTDOWN_TIMEOUT" (pos 10000000000);
    policy_reload_every = duration_or "SENTRYGATE_POLICY_RELOAD" (pos 5000000000);
  }

  -- `LoadWorkerFromEnv`
  unfoldable pub load_worker_from_env : Config
  unfolding base_from_env
  load_worker_from_env = base_from_env

  -- `LoadFromEnv`
  unfoldable pub load_from_env : Result Error Config
  unfolding base_from_env
  load_from_env =
      if getenv "SENTRYGATE_AGENT_KEYS" == ""
      then err (text "SENTRYGATE_AGENT_KEYS is required (format: agent-id:key,agent-id:key)")
      else ok (record base_from_env { agent_keys = getenv "SENTRYGATE_AGENT_KEYS" })

-- A number of seconds below 2 ^ 63 nanoseconds is taken as it is.
seconds_duration-small :
    (n : ℕ) → n * 1000000000 < 2 ^ 63 → seconds_duration (pos n) ≡ pos (n * 1000000000)
unfolding seconds_duration
seconds_duration-small n h = ground arith
