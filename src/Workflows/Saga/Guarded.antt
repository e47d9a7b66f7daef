-- ===== src/Workflows/Saga/Guarded.antt =====
-- The answer of the dispatch activity, and the fence that was not acquired.
use sentry_gate_ai.Workflows.Saga.Phases.{
  after_error, fence_failure, Run, after_release, record_outcome, after_dispatch, dispatch_phase,
  fenced_request,
}
use sentry_gate_ai.Workflows.Saga.Ledger.{dispatch_answer, is_some, Ledger, observe, Obeys}
use sentry_gate_ai.Prelude.{
  sym, subst, ◌+++◌, String, ℕ, suc, true, false, Option, none, some, ◌≡◌, inl, inr, refl, arith,
  Bool-cases, is_none, ◌||◌, ◌==◌,
}
use sentry_gate_ai.Contracts.{Result, ok, err, DispatchOutcome, checked, unknown_outcome}
use sentry_gate_ai.Workflows.Activities.{fence_rejected_type}
use sentry_gate_ai.Workflows.Saga.{TaskError, Command}
use sentry_gate_ai.Workflows.Saga.After.{settle-Obeys}
use sentry_gate_ai.Workflows.Saga.Conclusion.{Reported, checked-known}

-- Nothing has been dispatched or given back.
abbrev pub IsEarly : Ledger → Type 0
IsEarly l =
    (l.dispatched ≡ false)
    × (l.fenced_out ≡ false)
    × (l.outcome ≡ none)
    × (l.compensated ≡ false)
    × (l.released ≡ false)

-- All that a dispatch needs.
abbrev pub IsAuthorized : Ledger → String → Type 0
IsAuthorized l token =
    (l.verified ≡ true)
    × (l.claimant ≡ some token)
    × (l.allowed ≡ true)
    × (l.recorded ≡ true)
    × (l.audited ≡ true)

module _ (run : Run) where
  record_outcome-Obeys :
      (l : Ledger) (token : String) (seq : ℕ) (o : DispatchOutcome)
      → Reported l (checked o)
      → Obeys run l (record_outcome run token seq o)
  unfolding record_outcome
  record_outcome-Obeys l token seq o v =
      (tt, λ at. (tt, λ x. settle-Obeys run l token (suc seq) (checked o) x v))

  after_release-Obeys :
      (l : Ledger) (token : String) (seq : ℕ) (e : TaskError) (fence : String)
      (released : Option TaskError)
      → l.fenced_out ≡ true
      → Reported l (unknown_outcome e.message)
      → Obeys run (record l { released = true }) (after_release run token seq e fence released)
  unfolding after_release unknown_outcome
  after_release-Obeys l token seq e fence released f v =
      elim (Bool-cases (is_none released || fence == fence_rejected_type)) [
        | inl given ↦ rw given (
          tt,
          λ now. (
            tt,
            λ x. record {
              success = λ h. absurd (ground (arith, h));
              returned = λ h _. absurd (ground (arith, h, v.dispatched));
              unknown = λ h _. absurd (ground (arith, h, f));
            },
          ),
        )
        | inr kept ↦ rw kept (
          tt,
          λ now. (
            tt,
            λ x.
                settle-Obeys run (record l { released = true }) token (suc seq)
                  (unknown_outcome
                    ("execution fence may have committed; adapter not called: " +++ e.message))
                  x
                  (record {
                    dispatched = v.dispatched;
                    fresh = v.fresh;
                    seen = v.seen;
                    at = v.at;
                    status = v.status;
                    partial = v.partial;
                    known = v.known;
                  }),
          ),
        )
      ]

  unknown_seen :
      (l : Ledger) (e : TaskError) (m : String)
      → l.dispatched ≡ true
      → l.compensated ≡ false
      → l.outcome ≡ some (dispatch_answer (err e))
      → Reported l (unknown_outcome m)
  unfolding unknown_outcome checked
  unknown_seen l e m d fresh at = record {
    dispatched = d;
    fresh = fresh;
    seen = dispatch_answer (err e);
    at = at;
    status = refl;
    partial = refl;
    known = inr (inr refl);
  }

  checked_unknown : (m : String) → checked (unknown_outcome m) ≡ unknown_outcome m
  unfolding unknown_outcome checked
  checked_unknown m = refl

  after_error-Obeys :
      (l : Ledger) (token : String) (seq : ℕ) (e : TaskError) (fence : Option String)
      → l.dispatched ≡ true
      → l.compensated ≡ false
      → l.outcome ≡ some (dispatch_answer (err e))
      → l.fenced_out ≡ is_some fence
      → Obeys run l (after_error run token seq e fence)
  unfolding after_error
  after_error-Obeys l token seq e none d fresh at f =
      let m = "dispatch activity returned no outcome: " +++ e.message in
      record_outcome-Obeys l token seq (unknown_outcome m)
        (subst (Reported l) (sym (checked_unknown m)) (unknown_seen l e m d fresh at))
  after_error-Obeys l token seq e (some fence) d fresh at f = (
    (refl, inr f),
    λ released.
        after_release-Obeys l token seq e fence released f (unknown_seen l e e.message d fresh at),
  )

  after_dispatch-Obeys :
      (l : Ledger) (token : String) (seq : ℕ) (x : Result TaskError DispatchOutcome)
      → l.compensated ≡ false
      → Obeys run
          (observe l (Command.dispatch (fenced_request run token)) x)
          (after_dispatch run token seq x)
  unfolding after_dispatch
  after_dispatch-Obeys l token seq (ok o) fresh =
      record_outcome-Obeys
        (record l { dispatched = true; fenced_out = false; outcome = some (checked o) }) token seq o
        (record {
          dispatched = refl;
          fresh = fresh;
          seen = checked o;
          at = refl;
          status = refl;
          partial = refl;
          known = checked-known o;
        })
  after_dispatch-Obeys l token seq (err e) fresh =
      after_error-Obeys
        (record l {
          dispatched = true;
          fenced_out = is_some (fence_failure e);
          outcome = some (dispatch_answer (err e));
        })
        token seq e (fence_failure e) refl fresh refl refl

  pub dispatch_phase-Obeys :
      (l : Ledger) (token : String) (seq : ℕ)
      → IsEarly l
      → IsAuthorized l token
      → Obeys run l (dispatch_phase run token seq)
  unfolding dispatch_phase
  dispatch_phase-Obeys l token seq (d, _, _, fresh, kept) (v, c, a, r, w) =
      ((v, c, a, r, w, kept, d, refl), λ x. after_dispatch-Obeys l token seq x fresh)
