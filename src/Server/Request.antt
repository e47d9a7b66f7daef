-- ===== src/Server/Request.antt =====
-- cmd/sentrygate/handler.go: the request body and what the handlers use of other parts. `decode` of
-- encoding/json, over a body that is cut at 64 KiB, is the parameter `Json`.
use sentry_gate_ai.Prelude.{
  String, ◌≡◌, true, false, ℕ, Bool, not, List, Option, some, ◌+++◌, if◌then◌else◌,
}
use sentry_gate_ai.Prelude.Pattern.{id_colon_char, one_then}
use sentry_gate_ai.Contracts.{
  Error, Result, ok, err, AgentProposal, DecisionRecord, ExecutionRequest, Verdict, ReasonCode,
}

abbrev pub max_body_bytes_text : String
max_body_bytes_text = "65536"

-- `proposalIDPattern`
unfoldable pub proposal_id_pattern : String → Bool
unfolding one_then
proposal_id_pattern = one_then id_colon_char id_colon_char 127

-- The errors of the decoder: the end of the body, the size limit, and all others
pub data JsonError : Type 0 where
  eof max_bytes : JsonError
  other : String → JsonError

-- `dec.Decode` of a proposal into an envelope and of one more value, over the rest of the body `B`
pub record Json (B : Type 0) : Type 0 where
  pub decode : AgentProposal → B → Result JsonError (AgentProposal × B)
  pub decode_extra : B → Option JsonError

too_large : ℕ × String
too_large = (413, "request body exceeds " +++ max_body_bytes_text +++ " bytes")

decode_failed : JsonError → ℕ × String
unfolding too_large
decode_failed JsonError.max_bytes = too_large
decode_failed JsonError.eof = (400, "invalid agent proposal: EOF")
decode_failed (JsonError.other s) = (400, "invalid agent proposal: " +++ s)

check_id : AgentProposal → Result (ℕ × String) AgentProposal
unfolding proposal_id_pattern
check_id p =
    if not (proposal_id_pattern p.id)
    then err (400, "invalid agent proposal: id must match ^[A-Za-z0-9._:-]{1,128}$")
    else ok p

check_end : AgentProposal → Option JsonError → Result (ℕ × String) AgentProposal
unfolding check_id too_large
check_end p (some JsonError.eof) = check_id p
check_end p (some JsonError.max_bytes) = err too_large
check_end p _ = err (400, "invalid agent proposal: unexpected data after JSON object")

-- `decodeProposal`: the status and message of a failure, or the proposal
unfoldable pub decode_proposal :
    {B : Type 0} → Json B → AgentProposal → B → Result (ℕ × String) AgentProposal
unfolding decode_failed check_end
decode_proposal json p body = elim (json.decode p body) [
  | err e ↦ err (decode_failed e)
  | ok (p', rest) ↦ check_end p' (json.decode_extra rest)
]

-- The operations of `decision.Store` that the handlers use, over a state `S`. The Boolean is whether
-- the call's context has ended.
pub record DecisionStore (S : Type 0) : Type 0 where
  pub append_decision : S → Bool → DecisionRecord → S × Option Error
  pub list_decisions_by_proposal : S → Bool → String → Result Error (List DecisionRecord)

-- `client.StartWorkflowOptions`
pub record StartOptions : Type 0 where
  pub id : String
  pub task_queue : String
  pub error_when_already_started : Bool

pub data StartError : Type 0 where
  already_started : StartError
  failed : Error → StartError

pub record WorkflowRun : Type 0 where
  pub id : String
  pub run_id : String

-- `workflowStarter`, over the state `W` of the workflow service
pub record WorkflowStarter (W : Type 0) : Type 0 where
  pub execute_workflow :
      W → Bool → StartOptions → ExecutionRequest → W × Result StartError WorkflowRun

-- What Temporal documents of `WorkflowExecutionErrorWhenAlreadyStarted`: with it, a start succeeds only
-- if no workflow with the ID is running.
pub record StarterLaws (W : Type 0) (starter : WorkflowStarter W) (running : W → String → Bool)
    : Type 0 where
  pub started_new :
      (w : W) (ended : Bool) (options : StartOptions) (req : ExecutionRequest) (run : WorkflowRun)
      → options.error_when_already_started ≡ true
      → (starter.execute_workflow w ended options req).1 ≡ ok run
      → running w options.id ≡ false

-- `interceptResponse`
pub record InterceptResponse : Type 0 where
  pub status : String
  pub verdict : Verdict
  pub reasons : List ReasonCode
  pub decision_id : String
  pub proposal_id : String
  pub workflow_id : String
  pub run_id : String
  pub next : String
  pub error : String

-- What the handler writes to the `http.ResponseWriter`
pub record Response : Type 0 where
  pub code : ℕ
  pub body : InterceptResponse

abbrev pub zero_response : InterceptResponse
zero_response = record {
  status = "";
  verdict = Verdict.other "";
  reasons = List.[];
  decision_id = "";
  proposal_id = "";
  workflow_id = "";
  run_id = "";
  next = "";
  error = "";
}

-- `writeError`
abbrev pub write_error : ℕ → String → String → Response
write_error code status message = record {
  code = code;
  body = record zero_response { status = status; error = message };
}
