-- ===== src/Workflows/Saga/Returns.antt =====
-- Every run of the workflow returns, phase by phase, the last one first.
use sentry_gate_ai.Contracts.{Decision}
