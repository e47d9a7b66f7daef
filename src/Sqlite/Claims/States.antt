-- ===== src/Sqlite/Claims/States.antt =====
-- The texts of claim states: reading one back, and comparing texts for comparing states.
use sentry_gate_ai.Prelude.{
  refl, ◌∙◌, sym, subst, Bool-cases, false, ◌==◌, eq_iff, String, ◌≡◌, ◌≢◌, true, some, arith, inl,
  inr, map, List, [], ◌∷◌,
}
use sentry_gate_ai.Prelude.Lists.{any}
use sentry_gate_ai.Contracts.{ClaimState, claim_state_text, claim_state_eq}
use sentry_gate_ai.Decision.Claim.{claim_sources, may_advance}
use sentry_gate_ai.Sqlite.Rows.{read_claim_state}

-- A state of the transition table is read from its text, and only from it.
pub read_released :
    (s : String) → (s == "RELEASED") ≡ true → read_claim_state s ≡ ClaimState.released
unfolding read_claim_state
read_released s h = rw ((eq_iff s "RELEASED").0 h) refl

-- A state that the source names has the text that is read as it.
abbrev IsNamed : ClaimState → Type 0
IsNamed (ClaimState.other s) = ⊥
IsNamed _ = Unit {0}

read_own :
    (f : ClaimState) → IsNamed f → claim_state_eq f (read_claim_state (claim_state_text f)) ≡ true
unfolding read_claim_state
read_own ClaimState.claimed h = refl
read_own ClaimState.executing h = refl
read_own ClaimState.reconciliation_required h = refl
read_own ClaimState.completed h = refl
read_own ClaimState.failed h = refl
read_own ClaimState.released h = refl
read_own (ClaimState.other x) h = absurd h

read_different :
    (f : ClaimState) (s : String)
    → IsNamed f
    → claim_state_text f ≢ s
    → claim_state_eq f (read_claim_state s) ≡ false
unfolding read_claim_state
read_different ClaimState.claimed s h n = ground (arith, eq_iff s "CLAIMED")
read_different ClaimState.executing s h n = ground (arith, eq_iff s "EXECUTING")
read_different ClaimState.reconciliation_required s h n =
    ground (arith, eq_iff s "RECONCILIATION_REQUIRED")
read_different ClaimState.completed s h n = ground (arith, eq_iff s "COMPLETED")
read_different ClaimState.failed s h n = ground (arith, eq_iff s "FAILED")
read_different ClaimState.released s h n = ground (arith, eq_iff s "RELEASED")
read_different (ClaimState.other x) s h n = absurd h

text_agrees :
    (f : ClaimState) (s : String)
    → IsNamed f
    → (claim_state_text f == s) ≡ claim_state_eq f (read_claim_state s)
text_agrees f s h = elim (Bool-cases (claim_state_text f == s)) [
  | inl e ↦
      let same = (eq_iff (claim_state_text f) s).0 e in
      e ∙ sym (subst (λ x. claim_state_eq f (read_claim_state x) ≡ true) same (read_own f h))
  | inr e ↦ e ∙ sym (read_different f s h λ same. ground (arith, e, eq_iff (claim_state_text f) s))
]

AllNamed : List ClaimState → Type 0
AllNamed [] = Unit {0}
AllNamed (f ∷ fs) = IsNamed f × AllNamed fs

any-text_agrees :
    (from : List ClaimState) (s : String)
    → AllNamed from
    → any (λ f. f == s) (map claim_state_text from)
      ≡ any (λ f. claim_state_eq f (read_claim_state s)) from
unfolding AllNamed
any-text_agrees [] s h = refl
any-text_agrees (f ∷ fs) s h = rw (text_agrees f s h.0, any-text_agrees fs s h.1)

sources-AllNamed :
    (to : ClaimState) (from : List ClaimState) → claim_sources to ≡ some from → AllNamed from
unfolding claim_sources AllNamed
sources-AllNamed ClaimState.executing from h = ground arith
sources-AllNamed ClaimState.claimed from h = ground arith
sources-AllNamed ClaimState.reconciliation_required from h = ground arith
sources-AllNamed ClaimState.completed from h = ground arith
sources-AllNamed ClaimState.failed from h = ground arith
sources-AllNamed ClaimState.released from h = ground arith
sources-AllNamed (ClaimState.other x) from h = ground arith

-- Comparing the texts of the sources is comparing the states.
pub sources_agree :
    (to : ClaimState) (from : List ClaimState) (s : String)
    → claim_sources to ≡ some from
    → any (λ f. f == s) (map claim_state_text from) ≡ may_advance (read_claim_state s) to
unfolding may_advance
sources_agree to from s h =
    rw (any-text_agrees from s (sources-AllNamed to from h), may_advance, h) refl

pub read_target :
    (to : ClaimState) (from : List ClaimState)
    → claim_sources to ≡ some from
    → read_claim_state (claim_state_text to) ≡ to
unfolding claim_sources read_claim_state
read_target ClaimState.executing from h = refl
read_target ClaimState.claimed from h = refl
read_target ClaimState.reconciliation_required from h = refl
read_target ClaimState.completed from h = refl
read_target ClaimState.failed from h = refl
read_target ClaimState.released from h = refl
read_target (ClaimState.other x) from h = ground arith
