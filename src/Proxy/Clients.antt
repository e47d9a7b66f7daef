-- ===== src/Proxy/Clients.antt =====
-- proxy/clients.go: the in-memory simulators of the F5 and Zscaler control planes. Each method locks
-- the mutex, so it is one step. `now` is what `time.Now()` reads. A revision is an int64 that starts
-- at zero, kept as its bits: a number below 2 ^ 64 that wraps around.
pub mod F5
pub mod Zscaler
pub mod Revisions
use sentry_gate_ai.Prelude.{
  ℕ, ◌-◌, String, Bool, not, ◌||◌, ◌==◌, Option, none, some, if◌then◌else◌,
}
use sentry_gate_ai.Contracts.{Time, Error, sentinel, auth_handshake_failed}

-- `RootCoreEdgeID`
abbrev pub root_core_edge_id : String
root_core_edge_id = "ROOT_CORE_EDGE"

-- `requireAuth` of both clients
unfoldable pub require_auth : Bool → String → Option Error
require_auth authenticated token =
    if not authenticated || token == "" then some (sentinel auth_handshake_failed) else none

-- `t.UnixNano()` of a time from 1970 on
unfoldable pub unix_nano : Time → ℕ
unix_nano t = t - 62135596800000000000
