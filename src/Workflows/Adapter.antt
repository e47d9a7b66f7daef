-- ===== src/Workflows/Adapter.antt =====
-- workflows/activities.go: the `Adapter` interface over a state `A` of the infrastructure. The
-- Boolean is whether the call's context has ended. `recording` notes each request that is
-- dispatched through an adapter.
use sentry_gate_ai.Prelude.{Bool, List, ◌∷◌, Option}
use sentry_gate_ai.Contracts.{Error, DispatchRequest, DispatchOutcome}

pub record Adapter (A : Type 0) : Type 0 where
  pub dispatch : A → Bool → DispatchRequest → A × DispatchOutcome
  pub reconcile : A → Bool → DispatchRequest → A × DispatchOutcome
  pub compensate : A → Bool → DispatchRequest → A × Option Error

pub record Recorded (A : Type 0) : Type 0 where
  pub dispatched : List DispatchRequest
  pub inner : A

module _ {A : Type 0} where
  abbrev pub recording : Adapter A → Adapter (Recorded A)
  recording ad = record {
    dispatch = λ r ended req.
        let (a, o) = ad.dispatch r.inner ended req in
        (record { dispatched = req ∷ r.dispatched; inner = a }, o);
    reconcile =
        λ r ended req. let (a, o) = ad.reconcile r.inner ended req in (record r { inner = a }, o);
    compensate =
        λ r ended req. let (a, e) = ad.compensate r.inner ended req in (record r { inner = a }, e);
  }
