-- ===== src/Tests/Server.antt =====
-- The properties of the ingress handler and of the evaluation slots at concrete inputs: an allowed
-- request over the in-memory store and over the SQLite store.
use sentry_gate_ai.Prelude.{
  String, List, [], ◌∷◌, true, Bool-cases, inl, inr, ◌==◌, ◌&&◌, if◌then◌else◌, Bool, eq_iff, ◌↔◌,
  refl, ◌≡◌, ◌≢◌, ◌⊎◌, false, none, some, arith,
}
use sentry_gate_ai.Contracts.{validate, ok, AgentProposal, Error, err, ExecutionRequest}
use sentry_gate_ai.Decision.Store.{append_decision, new_memory_store}
use sentry_gate_ai.Policy.{agent_may_use, environment_mode, has_agent, has_command, target}
use sentry_gate_ai.Prelude.Assoc.{lookup}
use sentry_gate_ai.Prelude.Lists.{any}
use sentry_gate_ai.Proxy.{slot_count, slot, zero_proposal}
use sentry_gate_ai.Proxy.Slots.{
  remove, Slots, new_slots, arrive, take, here, next, arrives, takes, IsServed, waiting-IsServed,
}
use sentry_gate_ai.Prelude.Int.{negsuc}
use sentry_gate_ai.Decision.Store.Records.{IsIndexed, new_memory_store-IsIndexed}
use sentry_gate_ai.Server.Request.{
  Json, JsonError, WorkflowStarter, WorkflowRun, StartOptions, StartError, StarterLaws,
}
use sentry_gate_ai.Server.Intercept.{InterceptCall, intercept}
use sentry_gate_ai.Server.Backed.{Starts, intercept-Starts}
use sentry_gate_ai.Server.Stores.{
  memory_decision_store, memory_recorded, memory_decision_store-laws, sqlite_decision_store,
}
use sentry_gate_ai.Server.Accepts.{IsAccepted, intercept_accepted_iff}
use sentry_gate_ai.Sqlite.Decisions.Stored.{sqlite_recorded}
use sentry_gate_ai.Sqlite.Decisions.{get_decision}
use sentry_gate_ai.Decision.Ingress.{check_ingress}
use sentry_gate_ai.Tests.Sqlite.{driver, codec, empty, no_rows, laws}
use sentry_gate_ai.Server.Started.{started_passes_check}
use sentry_gate_ai.Tests.{digest, restart, snapshot}

-- Bodies are decoded already.
abbrev json : Json AgentProposal
json = record { decode = λ p body. ok (body, body); decode_extra = λ rest. some JsonError.eof }

abbrev running : List String → String → Bool
running ids id = any (λ x. x == id) ids

-- The service keeps the IDs of the workflows that run, and attaches to one unless the options want an
-- error.
abbrev starter : WorkflowStarter (List String)
starter = record {
  execute_workflow = λ ids ended options req.
      if options.error_when_already_started && running ids options.id
      then (ids, err StartError.already_started)
      else (options.id ∷ ids, ok (record { id = options.id; run_id = "run-1" }));
}

started_new :
    (ids : List String) (ended : Bool) (options : StartOptions) (req : ExecutionRequest)
    (run : WorkflowRun)
    → options.error_when_already_started ≡ true
    → (starter.execute_workflow ids ended options req).1 ≡ ok run
    → running ids options.id ≡ false
started_new ids ended options req run exclusive h = elim (Bool-cases (running ids options.id)) [
  | inl there ↦ absurd (ground (arith, exclusive, there, h))
  | inr free ↦ free
]

abbrev temporal : StarterLaws (List String) starter running
temporal = record { started_new = started_new }

abbrev call : InterceptCall AgentProposal
call = record {
  agent_id = some "agent-1";
  envelope = zero_proposal;
  body = restart;
  ended_evaluate = false;
  wait = slot;
  decision_id = "dec-1";
  trace_id = "";
  now = 7;
  ended_append = false;
  ended_start = false;
}

fresh : memory_recorded new_memory_store "dec-1" ≡ none
unfolding memory_recorded lookup
fresh = refl

named : call.decision_id ≢ ""
named h = ground (arith, eq_iff "dec-1" "")

intercept-Starts_example :
    ((intercept digest json memory_decision_store starter
        (some snapshot)
        "tasks"
        call
        new_memory_store
        []).0.1
      ≡ [])
    ⊎ Starts digest json memory_decision_store starter
        (some snapshot)
        "tasks"
        memory_recorded
        IsIndexed
        memory_decision_store-laws
        call
        new_memory_store
        []
intercept-Starts_example =
    intercept-Starts digest json memory_decision_store starter (some snapshot) "tasks"
      memory_recorded IsIndexed memory_decision_store-laws call new_memory_store []
      new_memory_store-IsIndexed named (omega arith) fresh

runs :
    (intercept digest json memory_decision_store starter
      (some snapshot)
      "tasks"
      call
      new_memory_store
      []).1.code
    ≡ 200
unfolding intercept has_agent lookup has_command agent_may_use target environment_mode
    append_decision validate
runs = refl

intercept_accepted_iff_example :
    ((intercept digest json memory_decision_store starter
        (some snapshot)
        "tasks"
        call
        new_memory_store
        []).1.code
      ≡ 200)
    ↔ IsAccepted digest json memory_decision_store starter
        (some snapshot)
        "tasks"
        running
        temporal
        call
        new_memory_store
        []
intercept_accepted_iff_example =
    intercept_accepted_iff digest json memory_decision_store starter (some snapshot) "tasks" running
      temporal call new_memory_store []

-- One slot, held by request 1, while request 2 waits.
abbrev busy : Slots
busy = take 1 (arrive 2 (arrive 1 (new_slots (negsuc 3))))

waiting-IsServed_example : IsServed 2 busy
unfolding slot_count remove
waiting-IsServed_example =
    waiting-IsServed (negsuc 3) busy 2
      (next (next (next here (arrives 1 refl)) (arrives 2 refl)) (takes 1 refl refl refl)) refl

fresh_row : sqlite_recorded driver codec (λ t. t) laws empty "dec-1" ≡ none
unfolding sqlite_recorded lookup
fresh_row = refl

started_passes_check_example :
    ((intercept digest json
        (sqlite_decision_store driver codec no_rows)
        starter
        (some snapshot)
        "tasks"
        call
        empty
        []).0.1
      ≡ [])
    ⊎ ((req : ExecutionRequest) × (options : StartOptions) × ((intercept digest json
            (sqlite_decision_store driver codec no_rows)
            starter
            (some snapshot)
            "tasks"
            call
            empty
            []).0.1
          ≡ (starter.execute_workflow [] false options req).0)
        × ((later : Bool)
            → (check_ingress digest
                  (get_decision driver codec
                    (intercept digest json
                      (sqlite_decision_store driver codec no_rows)
                      starter
                      (some snapshot)
                      "tasks"
                      call
                      empty
                      []).0.0
                    later
                    req.ingress_decision_id)
                  req
                  options.id
                ≡ none)
              ⊎ ((e : Error) × (driver.query_decision
                      (intercept digest json
                        (sqlite_decision_store driver codec no_rows)
                        starter
                        (some snapshot)
                        "tasks"
                        call
                        empty
                        []).0.0
                      later
                      req.ingress_decision_id
                    ≡ err e))))
started_passes_check_example =
    started_passes_check digest json driver codec (λ t. t) laws no_rows starter (some snapshot)
      "tasks" call empty [] named (omega arith) fresh_row
