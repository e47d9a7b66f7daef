-- ===== src/Sqlite/Claims/Laws.antt =====
-- The SQLite store keeps the laws of a claim store and what `ClaimStore` promises.
use sentry_gate_ai.Decision.Claim.Contract.{ClaimStoreLaws}
use sentry_gate_ai.Sqlite.Database.{Tables, Driver, DriverLaws}
use sentry_gate_ai.Sqlite.Rows.{Codec, stamp, stamp_readable}
use sentry_gate_ai.Sqlite.Claims.{sqlite_claim_store}
use sentry_gate_ai.Sqlite.Claims.Taking.{
  sqlite_claim_of, get_done, claim_own, claim_other, claim_done,
}
use sentry_gate_ai.Decision.Claim.Promises.{ClaimStorePromises}
use sentry_gate_ai.Sqlite.Claims.Working.{IsKnown, IsAnswering, finds, misses}
use sentry_gate_ai.Sqlite.Claims.Answers.{
  claims_free, claims_again, claim_blocked, claim_unknown, claim_refused,
}
use sentry_gate_ai.Sqlite.Claims.Advancing.{advances, advance_blocked}
use sentry_gate_ai.Sqlite.Claims.Moving.{advance_own, advance_other, advance_done, advance_refused}

-- Over a driver whose statements take effect as a whole or not at all, whatever they report, the
-- SQLite store keeps the laws of a claim store, with the times that are read back.
pub sqlite_claim_store-laws :
    {D : Type 0} (db : Driver D) (codec : Codec) (tables : D → Tables)
    (laws : DriverLaws D db tables)
    → ClaimStoreLaws D
        (sqlite_claim_store db codec)
        (sqlite_claim_of db codec tables laws)
        (stamp codec)
sqlite_claim_store-laws db codec tables laws = record {
  claim_own = claim_own db codec tables laws;
  claim_other = claim_other db codec tables laws;
  claim_done = claim_done db codec tables laws;
  advance_own = advance_own db codec tables laws;
  advance_other = advance_other db codec tables laws;
  advance_done = advance_done db codec tables laws;
  advance_refused = advance_refused db codec tables laws;
  get_done = get_done db codec tables laws;
}

-- Over a driver whose statements take effect as a whole or not at all, whatever they report, the SQLite
-- store keeps the contract of `ClaimStore`: its laws, with times that are read back as written before
-- the year 10000, and, while the driver answers and the times of the claim can be read, the answers
-- that are promised to claims, transitions and reads. ErrClaimHeld means that the claim is unchanged.
pub sqlite_claim_store-promises :
    {D : Type 0} (db : Driver D) (codec : Codec) (tables : D → Tables)
    (laws : DriverLaws D db tables)
    → ClaimStorePromises D
        (sqlite_claim_store db codec)
        (sqlite_claim_of db codec tables laws)
        (stamp codec)
        (IsKnown db codec tables laws)
        (IsAnswering db codec tables laws)
sqlite_claim_store-promises db codec tables laws = record {
  laws = sqlite_claim_store-laws db codec tables laws;
  stamped = stamp_readable codec;
  claims_free = claims_free db codec tables laws;
  claims_again = λ d ended id owner at c v complete known held mine.
      claims_again db codec tables laws d ended id owner at v complete c held mine;
  claim_blocked = λ d ended id owner at c v complete known held gone other.
      claim_blocked db codec tables laws d ended id owner at v complete c held gone other;
  claim_unknown = claim_unknown db codec tables laws;
  claim_refused = claim_refused db codec tables laws;
  advances = λ d ended id owner to at c v held mine permitted.
      advances db codec tables laws d ended id owner to at v c held mine permitted;
  advance_blocked = λ d ended id owner to at e v h.
      advance_blocked db codec tables laws d ended id owner to at v e h;
  finds = finds db codec tables laws;
  misses = misses db codec tables laws;
}
