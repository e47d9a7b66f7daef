-- ===== src/Workflows/Saga/Ledger.antt =====
-- What a run of the workflow has found out from the replies, and what it may ask and return then.
use sentry_gate_ai.Prelude.{
  String, Bool, true, false, ◌&&◌, Option, none, some, ◌≡◌, ◌≢◌, ◌⊎◌, List, [], ◌∷◌, is_none,
}
use sentry_gate_ai.Contracts.{
  Result, ok, err, ClaimState, Decision, IngressVerification, ClaimResult, AuditPhase, AuditVerdict,
  DispatchOutcome, OutcomeStatus, checked, unknown_outcome,
}
use sentry_gate_ai.Decision.Ingress.{is_allow}
use sentry_gate_ai.Workflows.Saga.{TaskError, WorkflowError, Command, Reply, Workflow, Event}
use sentry_gate_ai.Workflows.Saga.Phases.{
  Run, fenced_request, dispatch_request, fence_failure, reconciled, outcome_unknown_type,
}

-- `claimant` is the token that was granted the claim. `may_hold`: a claim was asked for and not
-- refused. `fenced_out`: the dispatch activity said that the adapter was not called. `outcome` is
-- the last outcome reported, UNKNOWN for an activity that failed.
pub record Ledger : Type 0 where
  pub verified : Bool
  pub claimant : Option String
  pub may_hold : Bool
  pub allowed : Bool
  pub recorded : Bool
  pub audited : Bool
  pub dispatched : Bool
  pub fenced_out : Bool
  pub outcome : Option DispatchOutcome
  pub released : Bool
  pub compensated : Bool
  pub completed : Bool

abbrev pub empty_ledger : Ledger
empty_ledger = record {
  verified = false;
  claimant = none;
  may_hold = false;
  allowed = false;
  recorded = false;
  audited = false;
  dispatched = false;
  fenced_out = false;
  outcome = none;
  released = false;
  compensated = false;
  completed = false;
}

abbrev pub says_valid : Result TaskError IngressVerification → Bool
says_valid (ok v) = v.valid
says_valid (err _) = false

abbrev pub is_granted : Result TaskError ClaimResult → Bool
is_granted (ok c) = c.claimed
is_granted (err _) = false

-- A failed claim activity may have taken the claim.
abbrev pub may_be_granted : Result TaskError ClaimResult → Bool
may_be_granted (ok c) = c.claimed
may_be_granted (err _) = true

abbrev pub says_allow : Result TaskError Decision → Bool
says_allow (ok d) = is_allow d.verdict
says_allow (err _) = false

abbrev pub token_if : Bool → String → Option String
token_if true t = some t
token_if false t = none

abbrev pub dispatch_answer : Result TaskError DispatchOutcome → DispatchOutcome
dispatch_answer (ok o) = checked o
dispatch_answer (err e) = checked (unknown_outcome e.message)

abbrev pub is_some : Option String → Bool
is_some none = false
is_some (some _) = true

abbrev pub says_fenced_out : Result TaskError DispatchOutcome → Bool
says_fenced_out (ok o) = false
says_fenced_out (err e) = is_some (fence_failure e)

abbrev pub observe_audit : Ledger → AuditPhase → AuditVerdict → Option TaskError → Ledger
observe_audit l AuditPhase.revalidation AuditVerdict.pass none = record l { audited = true }
observe_audit l _ _ _ = l

abbrev pub observe_advance : Ledger → ClaimState → Option TaskError → Ledger
observe_advance l ClaimState.released x = record l { released = true }
observe_advance l ClaimState.completed none = record l { completed = true }
observe_advance l _ _ = l

abbrev pub observe : Ledger → (c : Command) → Reply c → Ledger
observe l Command.now x = l
observe l (Command.sleep _) x = l
observe l Command.random_text x = l
observe l (Command.verify_ingress _) x = record l { verified = says_valid x }
observe l (Command.claim c) x = record l {
  claimant = token_if (is_granted x) c.token;
  may_hold = may_be_granted x;
}
observe l (Command.evaluate _) x = record l { allowed = says_allow x }
observe l (Command.record_decision d) x = record l { recorded = is_none x && is_allow d.verdict }
observe l (Command.audit a) x = observe_audit l a.phase a.verdict x
observe l (Command.advance t) x = observe_advance l t.to x
observe l (Command.dispatch _) x = record l {
  dispatched = true;
  fenced_out = says_fenced_out x;
  outcome = some (dispatch_answer x);
}
observe l (Command.reconcile _) x = record l { outcome = some (reconciled x); fenced_out = false }
observe l (Command.compensate _) x = record l { compensated = true }

unfoldable pub observe_all : Ledger → List Event → Ledger
observe_all l [] = l
observe_all l (e ∷ es) = observe_all (observe l e.command e.reply) es

abbrev pub HasOutcome : Ledger → OutcomeStatus → Type 0
HasOutcome l status = (o : DispatchOutcome) × (l.outcome ≡ some o) × (o.status ≡ status)

-- The claim is released only if nothing was dispatched, and otherwise follows the outcome.
abbrev pub MayAdvance : Ledger → ClaimState → Type 0
MayAdvance l ClaimState.released = (l.dispatched ≡ false) ⊎ (l.fenced_out ≡ true)
MayAdvance l ClaimState.reconciliation_required = HasOutcome l OutcomeStatus.unknown
MayAdvance l ClaimState.completed = HasOutcome l OutcomeStatus.success
MayAdvance l ClaimState.failed = HasOutcome l OutcomeStatus.failure
MayAdvance l _ = ⊥

-- Dispatch needs a valid ingress decision, the claim under the same token, an ALLOW that is
-- recorded and audited, no release and no earlier dispatch. Reconciliation needs an unknown
-- outcome, compensation a failure that was partly applied.
abbrev pub Permitted : Run → Ledger → Command → Type 0
Permitted run l (Command.claim c) =
    (l.verified ≡ true) × (c.decision_id ≡ run.req.ingress_decision_id)
Permitted run l (Command.evaluate _) = l.claimant ≢ none
Permitted run l (Command.dispatch f) =
    (l.verified ≡ true)
    × (l.claimant ≡ some f.token)
    × (l.allowed ≡ true)
    × (l.recorded ≡ true)
    × (l.audited ≡ true)
    × (l.released ≡ false)
    × (l.dispatched ≡ false)
    × (f ≡ fenced_request run f.token)
Permitted run l (Command.advance t) =
    (t.decision_id ≡ run.req.ingress_decision_id) × MayAdvance l t.to
Permitted run l (Command.reconcile d) =
    (d ≡ dispatch_request run) × (l.dispatched ≡ true) × HasOutcome l OutcomeStatus.unknown
Permitted run l (Command.compensate d) =
    (d ≡ dispatch_request run)
    × (l.compensated ≡ false)
    × (o : DispatchOutcome) × (l.outcome ≡ some o)
    × (o.status ≡ OutcomeStatus.failure)
    × (o.partially_applied ≡ true)
Permitted run l _ = Unit {0}

abbrev pub workflow_error_type : Option WorkflowError → Option String
workflow_error_type (some (WorkflowError.application _ t _ _)) = some t
workflow_error_type _ = none

-- What the workflow's result means.
pub record Closes (l : Ledger) (e : Option WorkflowError) : Type 0 where
  pub success : e ≡ none → HasOutcome l OutcomeStatus.success × (l.completed ≡ true)
  pub returned : l.dispatched ≡ false → l.may_hold ≡ true → l.released ≡ true
  pub unknown :
      l.fenced_out ≡ false
      → HasOutcome l OutcomeStatus.unknown
      → workflow_error_type e ≡ some outcome_unknown_type

-- Whatever the replies are, the workflow asks only for what is permitted, and closes properly.
abbrev pub Obeys : Run → Ledger → Workflow → Type 0
Obeys run l (Workflow.finish e) = Closes l e
Obeys run l Workflow.out_of_fuel = Unit {0}
Obeys run l (Workflow.ask c next) =
    Permitted run l c × ((x : Reply c) → Obeys run (observe l c x) (next x))
