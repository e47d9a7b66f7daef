-- ===== src/Workflows/Saga/Conclusion.antt =====
-- Once the outcome of the dispatch is certain, the workflow follows it: lemmas for each phase, the
-- last one first.
use sentry_gate_ai.Contracts.{ClaimState, DispatchOutcome, OutcomeStatus, checked, unknown_outcome}
use sentry_gate_ai.Workflows.Saga.Ledger.{observe_advance, Ledger, HasOutcome, Closes, Obeys}
use sentry_gate_ai.Workflows.Saga.Phases.{
  Run, is_unknown, succeed, fail, after_compensation, record_failure, conclude, finish_audited,
}
use sentry_gate_ai.Prelude.{
  ◌∙◌, String, ℕ, suc, true, false, Option, none, some, ◌≡◌, ◌≢◌, ◌⊎◌, inl, inr, refl, arith,
  Bool-cases,
}
use sentry_gate_ai.Workflows.Saga.{TaskError, WorkflowError, Workflow}

-- The status of a checked outcome is one of the three.
abbrev pub IsKnownStatus : OutcomeStatus → Type 0
IsKnownStatus s =
    (s ≡ OutcomeStatus.success) ⊎ (s ≡ OutcomeStatus.failure) ⊎ (s ≡ OutcomeStatus.unknown)

pub checked-known : (o : DispatchOutcome) → IsKnownStatus (checked o).status
unfolding checked unknown_outcome
checked-known o = ground arith

-- The ledger knows the outcome `o`.
pub record Reported (l : Ledger) (o : DispatchOutcome) : Type 0 where
  pub dispatched : l.dispatched ≡ true
  pub fresh : l.compensated ≡ false
  pub seen : DispatchOutcome
  pub at : l.outcome ≡ some seen
  pub status : seen.status ≡ o.status
  pub partial : seen.partially_applied ≡ o.partially_applied
  pub known : IsKnownStatus o.status

module _ (run : Run) where
  -- A failure closes the workflow if the outcome is confirmed.
  confirmed-Closes :
      (l : Ledger) (e : WorkflowError) (s : OutcomeStatus)
      → l.dispatched ≡ true
      → HasOutcome l s
      → s ≢ OutcomeStatus.unknown
      → Closes l (some e)
  confirmed-Closes l e s d (o, at, has) confirmed = record {
    success = λ h. absurd (ground (arith, h));
    returned = λ h _. absurd (ground (arith, h));
    unknown = λ _ (o', at', has'). absurd (confirmed (ground (arith, at, at')));
  }

  audit_failed-Closes :
      (l : Ledger) (e : TaskError)
      → l.dispatched ≡ true
      → HasOutcome l OutcomeStatus.success
      → Closes l (some (WorkflowError.audit_failed e.message))
  audit_failed-Closes l e d s =
      confirmed-Closes l (WorkflowError.audit_failed e.message) OutcomeStatus.success d s
        (λ p. ground arith)

  finish_audited-Obeys :
      (l : Ledger) (e : Option TaskError) (next : Workflow)
      → l.dispatched ≡ true
      → HasOutcome l OutcomeStatus.success
      → Obeys run l next
      → Obeys run l (finish_audited e next)
  finish_audited-Obeys l none next d s h = h
  finish_audited-Obeys l (some e) next d s h = audit_failed-Closes l e d s

  success-Closes :
      (l : Ledger)
      → l.dispatched ≡ true
      → HasOutcome l OutcomeStatus.success
      → l.completed ≡ true
      → Closes l none
  success-Closes l d s c = record {
    success = λ _. (s, c);
    returned = λ h _. absurd (ground (arith, h));
    unknown = λ _ (o', at', has'). absurd (ground (arith, at', has', s));
  }

  completed-Obeys :
      (l : Ledger) (x : Option TaskError) (next : Workflow)
      → l.dispatched ≡ true
      → HasOutcome l OutcomeStatus.success
      → Obeys run (record l { completed = true }) next
      → Obeys run (observe_advance l ClaimState.completed x) (finish_audited x next)
  completed-Obeys l none next d s h = h
  completed-Obeys l (some e) next d s h = audit_failed-Closes l e d s

  succeed-Obeys :
      (l : Ledger) (token : String) (seq : ℕ) (written : Option TaskError)
      → l.dispatched ≡ true
      → HasOutcome l OutcomeStatus.success
      → Obeys run l (succeed run token seq written)
  unfolding succeed
  succeed-Obeys l token seq written d s =
      let done = record l { completed = true } in
      (
        (refl, s),
        λ x. completed-Obeys l x _ d s (
            finish_audited-Obeys done written _ d s (
              tt,
              λ at. (
                tt,
                λ y.
                    finish_audited-Obeys done y (Workflow.finish none) d s
                      (success-Closes done d s refl),
              ),
            )),
      )

  record_failure-Obeys :
      (l : Ledger) (seq : ℕ) (failure : String)
      → l.dispatched ≡ true
      → HasOutcome l OutcomeStatus.failure
      → Obeys run l (record_failure run seq failure)
  unfolding record_failure
  record_failure-Obeys l seq failure d s =
      (tt, λ at. (tt, λ x. confirmed-Closes l _ OutcomeStatus.failure d s (λ p. ground arith)))

  after_compensation-Obeys :
      (l : Ledger) (seq : ℕ) (o : DispatchOutcome) (x : Option TaskError)
      → l.dispatched ≡ true
      → HasOutcome l OutcomeStatus.failure
      → Obeys run l (after_compensation run seq o x)
  unfolding after_compensation
  after_compensation-Obeys l seq o none d s =
      (tt, λ at. (tt, λ x. record_failure-Obeys l (suc seq) _ d s))
  after_compensation-Obeys l seq o (some e) d s =
      (tt, λ at. (tt, λ x. record_failure-Obeys l (suc seq) _ d s))

  fail-Obeys :
      (l : Ledger) (token : String) (seq : ℕ) (o : DispatchOutcome)
      → Reported l o
      → o.status ≡ OutcomeStatus.failure
      → Obeys run l (fail run token seq o)
  unfolding fail
  fail-Obeys l token seq o v f =
      let s : HasOutcome l OutcomeStatus.failure = (v.seen, v.at, v.status ∙ f) in
      (
        (refl, s),
        λ _. elim (Bool-cases o.partially_applied) [
          | inl partial ↦ rw partial (
            (refl, v.fresh, v.seen, v.at, v.status ∙ f, v.partial ∙ partial),
            λ x. after_compensation-Obeys (record l { compensated = true }) seq o x v.dispatched s,
          )
          | inr whole ↦ rw whole (record_failure-Obeys l seq _ v.dispatched s)
        ],
      )

  pub conclude-Obeys :
      (l : Ledger) (token : String) (seq : ℕ) (o : DispatchOutcome) (written : Option TaskError)
      → Reported l o
      → is_unknown o.status ≡ false
      → Obeys run l (conclude run token seq o written)
  unfolding conclude
  conclude-Obeys l token seq o written v confirmed = elim v.known [
    | inl s ↦ rw s (succeed-Obeys l token seq written v.dispatched (v.seen, v.at, v.status ∙ s))
    | inr (inl f) ↦ rw f (fail-Obeys l token seq o v f)
    | inr (inr u) ↦ absurd (ground (arith, u))
  ]
