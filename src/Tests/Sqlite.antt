-- ===== src/Tests/Sqlite.antt =====
-- The properties of the SQLite store at a concrete driver: tables in memory that fail only when the
-- context has ended or the foreign key is broken.
use sentry_gate_ai.Contracts.{owner_valid}
use sentry_gate_ai.Prelude.{
  refl, subst, String, ◌≡◌, ◌⊎◌, inl, inr, ℕ, zero, suc, Bool, true, false, List, [], ◌∷◌, Option,
  none, some, arith,
}
use sentry_gate_ai.Prelude.Assoc.{lookup, insert, has}
use sentry_gate_ai.Contracts.{
  Error, sentinel, text, context_canceled, errors_is, Result, ok, err, Time, ReasonCode, ClaimOwner,
  ClaimState, DecisionRecord, record_equal, validate,
}
use sentry_gate_ai.Sqlite.Database.{Tables, Statement, apply, Driver, DriverLaws, IsForeign}
use sentry_gate_ai.Sqlite.Rows.{Codec}
use sentry_gate_ai.Sqlite.Claims.{claim_execution, advance_claim}
use sentry_gate_ai.Sqlite.Decisions.{append_decision, get_decision}
use sentry_gate_ai.Sqlite.Decisions.Stored.{get-append}
use sentry_gate_ai.Sqlite.Calls.{
  Call, append_decision_call, claim_call, advance_call, call_all, Keeps, call_all-Keeps,
}
use sentry_gate_ai.Tests.{allowed, owner}

-- Times in unary
abbrev pub format : Time → String
format zero = ""
format (suc t) = String.◌∷◌ "i" (format t)

abbrev pub parse : String → Option Time
parse String.[] = some 0
parse (String.◌∷◌ c s) = elim (parse s) [ none ↦ none | some t ↦ some (suc t) ]

pub parse-format : (t : Time) → parse (format t) ≡ some t
parse-format zero = refl
parse-format (suc t) = rw (parse-format t) refl

-- JSON of the one list of reasons that the examples store
abbrev pub marshal : List ReasonCode → Result Error String
marshal (ReasonCode.environment_allowed ∷ []) = ok "[\"ENVIRONMENT_ALLOWED\"]"
marshal _ = err (text "unsupported")

abbrev pub unmarshal : String → Result Error (List ReasonCode)
unmarshal _ = ok (ReasonCode.environment_allowed ∷ [])

pub unmarshal-marshal :
    (reasons : List ReasonCode) (s : String) → marshal reasons ≡ ok s → unmarshal s ≡ ok reasons
unmarshal-marshal reasons s h = ground arith

abbrev pub codec : Codec
codec = record {
  format = format;
  parse = parse;
  marshal = marshal;
  unmarshal = unmarshal;
  parse-format = λ t _. parse-format t;
  unmarshal-marshal = unmarshal-marshal;
}

abbrev pub answer : Tables → Option (Tables × ℕ) → Tables × Result Error (Result Error ℕ)
answer t none = (t, err (text "constraint failed: FOREIGN KEY constraint failed (787)"))
answer t (some (t', n)) = (t', ok (ok n))

abbrev pub exec : Tables → Bool → Statement → Tables × Result Error (Result Error ℕ)
exec t true st = (t, err (sentinel context_canceled))
exec t false st = answer t (apply st t)

abbrev pub driver : Driver Tables
driver = record {
  exec = exec;
  query_claim = λ t ended id. ok (lookup id t.execution_claims);
  query_decision = λ t ended id. ok (lookup id t.decision_records);
  query_audit = λ t ended id. ok (lookup id t.audit_records);
  query_decisions = λ t ended id. ok ([], none);
  query_audits = λ t ended id. ok ([], none);
}

exec_whole :
    (t : Tables) (ended : Bool) (st : Statement)
    → ((exec t ended st).0 ≡ t) ⊎ ((n : ℕ) × (apply st t ≡ some ((exec t ended st).0, n)))
exec_whole t true st = inl refl
exec_whole t false st = go (apply st t)
  where
    go :
        (o : Option (Tables × ℕ))
        → ((answer t o).0 ≡ t) ⊎ ((n : ℕ) × (o ≡ some ((answer t o).0, n)))
    go none = inl refl
    go (some (t', n)) = inr (n, refl)

exec_done :
    (t : Tables) (ended : Bool) (st : Statement) (n : ℕ)
    → (exec t ended st).1 ≡ ok (ok n)
    → apply st t ≡ some ((exec t ended st).0, n)
exec_done t true st n h = absurd (ground arith)
exec_done t false st n h = go (apply st t) h
  where
    go : (o : Option (Tables × ℕ)) → (answer t o).1 ≡ ok (ok n) → o ≡ some ((answer t o).0, n)
    go none h = absurd (ground arith)
    go (some (t', m)) h = ground arith

IsForeign-canceled : IsForeign (sentinel context_canceled)
unfolding errors_is
IsForeign-canceled s other h = ground arith

IsForeign-text : (t : String) → IsForeign (text t)
unfolding errors_is
IsForeign-text t s other h = ground arith

exec-IsForeign :
    (t : Tables) (ended : Bool) (st : Statement) (e : Error)
    → ((exec t ended st).1 ≡ err e) ⊎ ((exec t ended st).1 ≡ ok (err e))
    → IsForeign e
exec-IsForeign t true st e h =
    let same : sentinel context_canceled ≡ e = ground arith in
    subst IsForeign same IsForeign-canceled
exec-IsForeign t false st e h = go (apply st t) h
  where
    go :
        (o : Option (Tables × ℕ))
        → ((answer t o).1 ≡ err e) ⊎ ((answer t o).1 ≡ ok (err e))
        → IsForeign e
    go none h =
        let same : text "constraint failed: FOREIGN KEY constraint failed (787)" ≡ e =
          ground arith in
        subst IsForeign same
          (IsForeign-text "constraint failed: FOREIGN KEY constraint failed (787)")
    go (some (t', m)) h = absurd (ground arith)

found : {A : Type 0} (x y : A) → let r : Result Error A = ok x in r ≡ ok y → y ≡ x
found x y h = ground arith

pub laws : DriverLaws Tables driver (λ t. t)
laws = record {
  exec_whole = exec_whole;
  exec_done = exec_done;
  exec_foreign = exec-IsForeign;
  claim_read = λ t ended id o h. found (lookup id t.execution_claims) o h;
  decision_read = λ t ended id o h. found (lookup id t.decision_records) o h;
  audit_read = λ t ended id o h. found (lookup id t.audit_records) o h;
}

abbrev pub empty : Tables
empty = record { audit_records = []; decision_records = []; execution_claims = [] }

abbrev pub no_rows : Error
no_rows = text "sql: no rows in result set"

abbrev one_decision : Tables
one_decision = (append_decision driver codec empty false no_rows allowed).0

append_runs : (append_decision driver codec empty false no_rows allowed).1 ≡ none
unfolding append_decision validate apply lookup has
append_runs = refl

get-append_example :
    ((r : DecisionRecord) × (get_decision driver codec one_decision false "dec-1" ≡ ok r)
      × (record_equal r allowed ≡ true))
    ⊎ ((e : Error) × (driver.query_decision one_decision false "dec-1" ≡ err e))
get-append_example =
    get-append driver codec (λ t. t) laws empty false false no_rows allowed (omega arith)
      append_runs

-- The decision is claimed and dispatched, and a second run is refused.
abbrev rival : ClaimOwner
rival = record owner { run_id = "run-2" }

abbrev claimed_once : Tables
claimed_once = (claim_execution driver codec one_decision false "dec-1" owner 5).0

claim_wins : (claim_execution driver codec one_decision false "dec-1" owner 5).1 ≡ none
unfolding claim_execution append_decision validate apply lookup has insert owner_valid
claim_wins = refl

advance_runs :
    (advance_claim driver codec claimed_once false "dec-1" owner ClaimState.executing 6).1 ≡ none
unfolding advance_claim claim_execution append_decision validate apply lookup has insert owner_valid
advance_runs = refl

abbrev calls : List Call
calls =
    append_decision_call false no_rows allowed
    ∷ claim_call false "dec-1" owner 5
    ∷ advance_call false "dec-1" owner ClaimState.executing 6
    ∷ claim_call false "dec-1" rival 7
    ∷ []

call_all-Keeps_example : Keeps one_decision (call_all driver codec calls one_decision)
call_all-Keeps_example = call_all-Keeps driver codec (λ t. t) laws calls one_decision
