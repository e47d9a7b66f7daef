-- ===== src/Decision/Suite.antt =====
-- internal/decision/decisiontest/claims.go: the conformance suite of claim stores, as programs over any
-- store. A test is a list of calls with what each must answer; it stops at the first surprise, as
-- `t.Fatalf` does. Calls that race are made in any order, since each is one step of the store.
pub mod Cases
pub mod Winner
use sentry_gate_ai.Prelude.{
  String, ℕ, Bool, true, false, not, ◌&&◌, ◌==◌, ◌+++◌, List, [], ◌∷◌, Option, none, some, nat_eq,
  if◌then◌else◌,
}
use sentry_gate_ai.Prelude.Lists.{count}
use sentry_gate_ai.Contracts.{
  Error, Sentinel, errors_is, claim_held, claim_not_held, claim_not_found, Result, ok, err, Time,
  ClaimState, ClaimOwner, ExecutionClaim, claim_state_eq, owner_eq, DecisionRecord, DecisionStage,
  Verdict,
}
use sentry_gate_ai.Decision.Claim.{ClaimStore}

-- `Stores`
pub record Stores (S : Type 0) : Type 0 where
  pub append_decision : S → DecisionRecord → S × Option Error
  pub claims : ClaimStore S

-- `at`, in nanoseconds since the zero time
abbrev pub at : Time
at = 63902919845000000000

-- The record of `seedIngress`
abbrev pub seed_record : String → DecisionRecord
seed_record id = record {
  decision_id = id;
  stage = DecisionStage.ingress;
  proposal_id = "p-" +++ id;
  agent_id = "agent-a";
  request_hash = "hash-" +++ id;
  command = "";
  target_id = "";
  environment = "";
  verdict = Verdict.allow;
  reasons = [];
  policy_version = "";
  policy_digest = "";
  workflow_id = "saga-p-" +++ id;
  trace_id = "";
  recorded_at = at;
}

-- `owner`
abbrev pub run_owner : String → ClaimOwner
run_owner run = record { workflow_id = "saga-p-dec_1"; run_id = run; token = "exe_" +++ run }

-- What a call must answer
pub data Want : Type 0 where
  success any_error : Want
  fails : Sentinel → Want

unfoldable pub meets : Want → Option Error → Bool
unfolding errors_is
meets success none = true
meets success (some e) = false
meets any_error none = false
meets any_error (some e) = true
meets (fails target) none = false
meets (fails target) (some e) = errors_is e target

pub data Step : Type 0 where
  seed : String → Step
  claim : String → ClaimOwner → Want → Step
  advance : String → ClaimOwner → ClaimState → Want → Step
  -- `requireState`
  require_state : String → ClaimState → ClaimOwner → Step
  require_no_claim : String → Step

module _ {S : Type 0} (stores : Stores S) where
  -- Go on with the new state if the answer is the wanted one.
  unfoldable pub wanting : Want → S × Option Error → Option S
  unfolding meets
  wanting want (s, e) = if meets want e then some s else none

  unfoldable pub in_state : String → ClaimState → ClaimOwner → Result Error ExecutionClaim → Bool
  unfolding owner_eq
  in_state id want owner (err e) = false
  in_state id want owner (ok c) =
      claim_state_eq c.state want && owner_eq c.owner owner && c.decision_id == id

  unfoldable pub has_no_claim : Result Error ExecutionClaim → Bool
  unfolding errors_is
  has_no_claim (err e) = errors_is e claim_not_found
  has_no_claim (ok c) = false

  unfoldable pub run_step : Step → S → Option S
  unfolding wanting in_state has_no_claim
  run_step (seed id) s = wanting success (stores.append_decision s (seed_record id))
  run_step (claim id owner want) s =
      wanting want (stores.claims.claim_execution s false id owner at)
  run_step (advance id owner to want) s =
      wanting want (stores.claims.advance_claim s false id owner to at)
  run_step (require_state id want owner) s =
      if in_state id want owner (stores.claims.get_claim s false id) then some s else none
  run_step (require_no_claim id) s =
      if has_no_claim (stores.claims.get_claim s false id) then some s else none

  unfoldable pub run_steps : List Step → S → Option S
  unfolding run_step
  run_steps [] s = some s
  run_steps (x ∷ xs) s = elim (run_step x s) [ none ↦ none | some s' ↦ run_steps xs s' ]

  -- The goroutines of "concurrent claims", in the order in which the store serves them
  unfoldable pub claim_all : String → List ClaimOwner → S → S × List (Option Error)
  claim_all id [] s = (s, [])
  claim_all id (o ∷ os) s =
      let (s', e) = stores.claims.claim_execution s false id o at in
      let (s'', es) = claim_all id os s' in (s'', e ∷ es)

  -- The goroutines of "concurrent fences by the owner"
  unfoldable pub fence_all : String → ClaimOwner → ℕ → S → S × List (Option Error)
  fence_all id o ℕ.zero s = (s, [])
  fence_all id o (ℕ.suc n) s =
      let (s', e) = stores.claims.advance_claim s false id o ClaimState.executing at in
      let (s'', es) = fence_all id o n s' in (s'', e ∷ es)

abbrev pub is_success : Option Error → Bool
is_success none = true
is_success (some e) = false

-- Every error is the expected one.
unfoldable pub all_refused : Sentinel → List (Option Error) → Bool
unfolding errors_is
all_refused target [] = true
all_refused target (none ∷ es) = all_refused target es
all_refused target (some e ∷ es) = errors_is e target && all_refused target es

-- `RequireOneWinner`, with the expected error of the others
unfoldable pub require_one_winner : Sentinel → List (Option Error) → Bool
unfolding all_refused
require_one_winner target es = all_refused target es && nat_eq (count is_success es) 1
