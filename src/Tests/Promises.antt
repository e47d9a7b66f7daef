-- ===== src/Tests/Promises.antt =====
-- The promises of the claim stores at concrete stores: the in-memory store, and the SQLite store over
-- the driver of Tests/Sqlite, which works for a claimed decision in a live context.
use sentry_gate_ai.Prelude.{
  subst, [], ◌∷◌, ◌≡◌, ℕ, true, false, none, some, refl, arith, contains_text, Option,
}
use sentry_gate_ai.Prelude.Assoc.{lookup}
use sentry_gate_ai.Contracts.{Error, ok, err, text, error_text}
use sentry_gate_ai.Decision.Claim.Promises.{ClaimStorePromises}
use sentry_gate_ai.Sqlite.Database.{Tables, ClaimRow, apply}
use sentry_gate_ai.Sqlite.Rows.{stamp}
use sentry_gate_ai.Sqlite.Claims.{sqlite_claim_store}
use sentry_gate_ai.Sqlite.Claims.Taking.{sqlite_claim_of}
use sentry_gate_ai.Sqlite.Claims.Laws.{sqlite_claim_store-promises}
use sentry_gate_ai.Tests.Sqlite.{driver, codec, laws, answer, empty, format}
use sentry_gate_ai.Sqlite.Claims.Working

sqlite_claim_store-promises_example :
    ClaimStorePromises Tables
      (sqlite_claim_store driver codec)
      (sqlite_claim_of driver codec (λ t. t) laws)
      (stamp codec)
      (Working.IsKnown driver codec (λ t. t) laws)
      (Working.IsAnswering driver codec (λ t. t) laws)
sqlite_claim_store-promises_example = sqlite_claim_store-promises driver codec (λ t. t) laws

executes :
    (o : Option (Tables × ℕ)) (t t' : Tables) (n : ℕ)
    → o ≡ some (t', n)
    → (answer t o).1 ≡ ok (ok n)
executes o t t' n h = rw h refl

refuses :
    (o : Option (Tables × ℕ)) (t : Tables)
    → o ≡ none
    → (e : Error) × ((answer t o).1 ≡ err e)
      × (contains_text (error_text e) "FOREIGN KEY constraint failed" ≡ true)
unfolding error_text
refuses o t h = (text "constraint failed: FOREIGN KEY constraint failed (787)", rw h refl, refl)

abbrev row : ClaimRow
row = record {
  workflow_id = "saga-p1";
  run_id = "run-1";
  claim_token = "exe_1";
  state = "CLAIMED";
  claimed_at = format 5;
  updated_at = format 6;
}

abbrev held : Tables
held = record empty { execution_claims = ("dec-1", row) ∷ [] }

readable :
    (r : ClaimRow) → lookup "dec-1" held.execution_claims ≡ some r → Working.IsReadable codec r
unfolding lookup
readable r h =
    let same : row ≡ r = ground arith in
    subst (Working.IsReadable codec) same ((5, refl), (6, refl))

works : Working.IsAnswering driver codec (λ t. t) laws held false "dec-1"
works = record {
  executes = λ st t n h. executes (apply st held) held t n h;
  refuses = λ st h. refuses (apply st held) held h;
  reads = refl;
  reads_after = λ st. refl;
  readable = readable;
}
