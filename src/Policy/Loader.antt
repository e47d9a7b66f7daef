-- ===== src/Policy/Loader.antt =====
-- internal/policy/loader.go and `Parse` of schema.go: the active policy and its reloads. SHA-256 and
-- the YAML decoder are the parameters `sha256_hex` and `decode`. What reading the file gives and the
-- time are arguments; the mutexes make each method one step. A recorded error is `some`, as its text
-- is never empty. Log lines are
-- left out; the goroutine that calls `Reload` is in Loop.
pub mod Reloads
pub mod Loop
use sentry_gate_ai.Prelude.{
  String, ℕ, Bool, true, false, List, Option, none, some, ◌==◌, ◌+++◌, if◌then◌else◌,
}
use sentry_gate_ai.Contracts.{Result, ok, err, Time}
use sentry_gate_ai.Policy.{Snapshot}
use sentry_gate_ai.Policy.Document.{Document, BuildError}
use sentry_gate_ai.Policy.Build.{build}

-- What the decoder finds: no document, no valid one, or a document and whether more input follows.
pub data Decoded : Type 0 where
  empty : Decoded
  malformed : String → Decoded
  document : Document → Bool → Decoded

pub data PolicyError : Type 0 where
  unreadable : String → PolicyError
  empty : PolicyError
  malformed : String → PolicyError
  several_documents : PolicyError
  invalid : BuildError → PolicyError

pub record Loader : Type 0 where
  pub current : Snapshot
  pub loaded_at : Time
  pub last_err : Option PolicyError
  pub last_err_at : Time
  pub last_bad_key : String

pub record Status : Type 0 where
  pub version : String
  pub digest : String
  pub loaded_at : Time
  pub max_parallel_tasks : ℕ
  pub last_reload_error : Option (PolicyError × Time)

-- The read of the file: its bytes, or an error's text.
abbrev pub FileRead : Type 0
FileRead = Result String (List ℕ)

abbrev pub read_error : String → String
read_error e = "policy: read: " +++ e

-- `clearError`
unfoldable pub clear_error : Loader → Loader
clear_error l = record l { last_err = none; last_err_at = 0; last_bad_key = "" }

-- `recordError`
unfoldable pub record_error : Loader → String → PolicyError → Time → Loader
record_error l bad_key e now = record l {
  last_err = some e;
  last_err_at = now;
  last_bad_key = bad_key;
}

abbrev pub error_at : Option PolicyError → Time → Option (PolicyError × Time)
error_at none at = none
error_at (some e) at = some (e, at)

-- `Status`
unfoldable pub status : Loader → Status
status l = record {
  version = l.current.version;
  digest = l.current.digest;
  loaded_at = l.loaded_at;
  max_parallel_tasks = l.current.max_parallel_tasks;
  last_reload_error = error_at l.last_err l.last_err_at;
}

module _ (sha256_hex : List ℕ → String) (decode : List ℕ → Decoded) where
  built : List ℕ → Result BuildError Snapshot → Result PolicyError Snapshot
  built raw (err e) = err (PolicyError.invalid e)
  built raw (ok s) = ok (record s { digest = sha256_hex raw })

  parsed : List ℕ → Decoded → Result PolicyError Snapshot
  unfolding build built
  parsed raw Decoded.empty = err PolicyError.empty
  parsed raw (Decoded.malformed e) = err (PolicyError.malformed e)
  parsed raw (Decoded.document doc true) = err PolicyError.several_documents
  parsed raw (Decoded.document doc false) = built raw (build doc)

  -- `Parse`
  unfoldable pub parse : List ℕ → Result PolicyError Snapshot
  unfolding parsed
  parse raw = parsed raw (decode raw)

  -- `Load`
  unfoldable pub load : FileRead → Result PolicyError Snapshot
  unfolding parse
  load (err e) = err (PolicyError.unreadable (read_error e))
  load (ok raw) = parse raw

  new_from : Time → Result PolicyError Snapshot → Result PolicyError Loader
  new_from now (err e) = err e
  new_from now (ok s) =
      ok (record {
        current = s;
        loaded_at = now;
        last_err = none;
        last_err_at = 0;
        last_bad_key = "";
      })

  -- `NewLoader`
  unfoldable pub new_loader : FileRead → Time → Result PolicyError Loader
  unfolding load new_from
  new_loader read now = new_from now (load read)

  -- The file has changed: its policy becomes active, or the error is recorded.
  replace : Loader → String → Time → Result PolicyError Snapshot → Loader × Option PolicyError
  unfolding record_error clear_error
  replace l digest now (err e) = (record_error l digest e now, some e)
  replace l digest now (ok next) =
      (record (clear_error l) { current = next; loaded_at = now }, none)

  -- `Reload`
  unfoldable pub reload : Loader → FileRead → Time → Loader × Option PolicyError
  unfolding parse replace record_error clear_error
  reload l (err e) now =
      let error = PolicyError.unreadable (read_error e) in
      (record_error l ("read:" +++ read_error e) error now, some error)
  reload l (ok raw) now =
      if sha256_hex raw == l.current.digest
      then (clear_error l, none)
      else replace l (sha256_hex raw) now (parse raw)
