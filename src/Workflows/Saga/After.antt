-- ===== src/Workflows/Saga/After.antt =====
-- From the dispatch on, the workflow follows the outcome: the reconciliation loop and the settlement.
use sentry_gate_ai.Contracts.{Result, ok, err, Time, DispatchOutcome, OutcomeStatus}
use sentry_gate_ai.Workflows.Saga.Ledger.{Ledger, HasOutcome, Obeys}
use sentry_gate_ai.Workflows.Saga.Conclusion.{
  IsKnownStatus, checked-known, Reported, conclude-Obeys,
}
use sentry_gate_ai.Workflows.Saga.Phases.{
  after_sleep, Run, dispatch_request, is_unknown, reconcile_loop, reconcile_dispatch,
  after_reconciliation, settle, reconciled, min, reconcile_window, reconcile_max_wait,
}
use sentry_gate_ai.Prelude.{
  ◌∙◌, String, ℕ, zero, suc, ◌-◌, ◌+◌, ◌*◌, true, false, Option, none, some, ◌≡◌, inl, inr, refl,
  arith, Bool-cases, ltb,
}
use sentry_gate_ai.Workflows.Saga.{TaskError, Workflow}

module _ (run : Run) where
  after_reconciliation-Obeys :
      (l : Ledger) (token : String) (seq : ℕ) (o : DispatchOutcome)
      → Reported l o
      → Obeys run l (after_reconciliation run token seq o)
  unfolding after_reconciliation
  after_reconciliation-Obeys l token seq o v = (
    tt,
    λ at. (
      tt,
      λ written. elim (Bool-cases (is_unknown o.status)) [
        | inl u ↦ rw u (record {
          success = λ h. absurd (ground (arith, h));
          returned = λ h _. absurd (ground (arith, h, v.dispatched));
          unknown = λ _ _. refl;
        })
        | inr c ↦ rw c (conclude-Obeys run l token (suc seq) o written v c)
      ],
    ),
  )

  reconciled-known : (x : Result TaskError DispatchOutcome) → IsKnownStatus (reconciled x).status
  reconciled-known (ok o) = checked-known o
  reconciled-known (err e) = checked-known _

  reconciled-Reported :
      (l : Ledger) (x : Result TaskError DispatchOutcome)
      → l.dispatched ≡ true
      → l.compensated ≡ false
      → Reported (record l { outcome = some (reconciled x); fenced_out = false }) (reconciled x)
  reconciled-Reported l x d fresh = record {
    dispatched = d;
    fresh = fresh;
    seen = reconciled x;
    at = refl;
    status = refl;
    partial = refl;
    known = reconciled-known x;
  }

  after_sleep-Obeys :
      (l : Ledger) (x : Option TaskError) (stop again : Workflow)
      → Obeys run l stop
      → Obeys run l again
      → Obeys run l (after_sleep x stop again)
  after_sleep-Obeys l none stop again s a = a
  after_sleep-Obeys l (some e) stop again s a = s

  -- The loop asks again only while the outcome is unknown.
  reconcile_loop-Obeys :
      (fuel : ℕ) (l : Ledger) (start : Time) (wait : ℕ) (next : DispatchOutcome → Workflow)
      → l.dispatched ≡ true
      → l.compensated ≡ false
      → HasOutcome l OutcomeStatus.unknown
      → ((l' : Ledger) (o : DispatchOutcome) → Reported l' o → Obeys run l' (next o))
      → Obeys run l (reconcile_loop fuel (dispatch_request run) start wait next)
  unfolding reconcile_loop
  reconcile_loop-Obeys zero l start wait next d fresh u h = tt
  reconcile_loop-Obeys (suc fuel) l start wait next d fresh u h = (
    (refl, d, u),
    λ x.
        let l' = record l { outcome = some (reconciled x); fenced_out = false } in
        let v = reconciled-Reported l x d fresh in
        elim (Bool-cases (is_unknown (reconciled x).status)) [
          | inr c ↦ rw c (h l' (reconciled x) v)
          | inl again ↦ rw again (
            tt,
            λ at. elim (Bool-cases (ltb reconcile_window (at - start + wait))) [
              | inl late ↦ rw late (h l' (reconciled x) v)
              | inr early ↦ rw early (
                tt,
                λ slept. after_sleep-Obeys l' slept _ _ (h l' (reconciled x) v) (
                    reconcile_loop-Obeys fuel l' start (min (2 * wait) reconcile_max_wait) next d
                      fresh (reconciled x, refl, ground (arith, again)) h),
              )
            ],
          )
        ],
  )

  reconcile_dispatch-Obeys :
      (l : Ledger) (next : DispatchOutcome → Workflow)
      → l.dispatched ≡ true
      → l.compensated ≡ false
      → HasOutcome l OutcomeStatus.unknown
      → ((l' : Ledger) (o : DispatchOutcome) → Reported l' o → Obeys run l' (next o))
      → Obeys run l (reconcile_dispatch (dispatch_request run) next)
  unfolding reconcile_dispatch
  reconcile_dispatch-Obeys l next d fresh u h =
      (tt, λ start. reconcile_loop-Obeys _ l start _ next d fresh u h)

  pub settle-Obeys :
      (l : Ledger) (token : String) (seq : ℕ) (o : DispatchOutcome) (written : Option TaskError)
      → Reported l o
      → Obeys run l (settle run token seq o written)
  unfolding settle
  settle-Obeys l token seq o written v = elim (Bool-cases (is_unknown o.status)) [
    | inl again ↦
        let u : HasOutcome l OutcomeStatus.unknown =
          (v.seen, v.at, v.status ∙ ground (arith, again)) in
        rw again (
          (refl, u),
          λ _.
              reconcile_dispatch-Obeys l _ v.dispatched v.fresh u
                (λ l' o' v'. after_reconciliation-Obeys l' token seq o' v'),
        )
    | inr c ↦ rw c (conclude-Obeys run l token seq o written v c)
  ]
