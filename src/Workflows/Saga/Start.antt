-- ===== src/Workflows/Saga/Start.antt =====
-- The phases before dispatch, and the whole workflow.
use sentry_gate_ai.Prelude.{
  String, ℕ, true, false, List, Option, none, some, ◌≡◌, inl, inr, refl, arith, Bool-cases, is_none,
  ◌&&◌, ◌+++◌, ◌∙◌,
}
use sentry_gate_ai.Decision.Ingress.{is_allow}
use sentry_gate_ai.Workflows.Saga.Phases.Before.{
  reject, release_and_finish, deny, after_audit, after_allow, after_evaluation, after_claim,
  after_token, after_verification, saga,
}
use sentry_gate_ai.Workflows.Saga.Phases.{Run}
use sentry_gate_ai.Workflows.Saga.{WorkflowError, TaskError}
use sentry_gate_ai.Contracts.{
  AuditPhase, AuditVerdict, ok, err, Result, Decision, ReasonCode, ClaimResult, IngressVerification,
}
use sentry_gate_ai.Workflows.Saga.Ledger.{
  is_granted, may_be_granted, token_if, says_allow, says_valid, observe_audit, Obeys, Closes,
  Ledger, empty_ledger,
}
use sentry_gate_ai.Workflows.Saga.Guarded.{IsEarly, dispatch_phase-Obeys}

module _ (run : Run) where
  early-Closes :
      (l : Ledger) (e : WorkflowError)
      → l.dispatched ≡ false
      → l.outcome ≡ none
      → (l.may_hold ≡ true → l.released ≡ true)
      → Closes l (some e)
  early-Closes l e d o h = record {
    success = λ p. absurd (ground (arith, p));
    returned = λ _ m. h m;
    unknown = λ _ (o', at, _). absurd (ground (arith, o, at));
  }

  release_and_finish-Obeys :
      (sha256_hex : List ℕ → String) (l : Ledger) (token : String) (e : WorkflowError)
      → IsEarly l
      → Obeys run l (release_and_finish sha256_hex run token e)
  unfolding release_and_finish
  release_and_finish-Obeys sha256_hex l token e (d, f, o, c, r) =
      ((refl, inl d), λ _. early-Closes (record l { released = true }) e d o (λ _. refl))

  reject-Obeys :
      (sha256_hex : List ℕ → String) (l : Ledger) (type : String) (reason : ReasonCode)
      (detail : String)
      → IsEarly l
      → l.may_hold ≡ false
      → Obeys run l (reject sha256_hex run type reason detail)
  unfolding reject
  reject-Obeys sha256_hex l type reason detail (d, f, o, c, r) m = (
    tt,
    λ at. (
      tt,
      λ x. (
        tt,
        λ at'. (
          tt,
          λ y.
              early-Closes (record l { recorded = is_none x && false }) _ d o
                (λ h. absurd (ground (arith, m, h))),
        ),
      ),
    ),
  )

  deny-Obeys :
      (sha256_hex : List ℕ → String) (l : Ledger) (token : String) (dec : Decision)
      → IsEarly l
      → Obeys run l (deny sha256_hex run token dec)
  unfolding deny
  deny-Obeys sha256_hex l token dec v =
      (tt, λ at. (tt, λ x. release_and_finish-Obeys sha256_hex l token _ v))

  after_audit-Obeys :
      (sha256_hex : List ℕ → String) (l : Ledger) (token : String) (x : Option TaskError)
      → IsEarly l
      → l.verified ≡ true
      → l.claimant ≡ some token
      → l.allowed ≡ true
      → l.recorded ≡ true
      → Obeys run
          (observe_audit l AuditPhase.revalidation AuditVerdict.pass x)
          (after_audit sha256_hex run token x)
  unfolding after_audit
  after_audit-Obeys sha256_hex l token none v p c a r =
      dispatch_phase-Obeys run (record l { audited = true }) token 1 v (p, c, a, r, refl)
  after_audit-Obeys sha256_hex l token (some e) v p c a r =
      release_and_finish-Obeys sha256_hex l token (WorkflowError.audit_failed e.message) v

  after_allow-Obeys :
      (sha256_hex : List ℕ → String) (l : Ledger) (token : String) (dec : Decision)
      (x : Option TaskError)
      → IsEarly l
      → l.verified ≡ true
      → l.claimant ≡ some token
      → l.allowed ≡ true
      → l.recorded ≡ is_none x
      → Obeys run l (after_allow sha256_hex run token dec x)
  unfolding after_allow
  after_allow-Obeys sha256_hex l token dec none v p c a r =
      (tt, λ at. (tt, λ x. after_audit-Obeys sha256_hex l token x v p c a r))
  after_allow-Obeys sha256_hex l token dec (some e) v p c a r =
      release_and_finish-Obeys sha256_hex l token (WorkflowError.audit_failed e.message) v

  after_evaluation-Obeys :
      (sha256_hex : List ℕ → String) (l : Ledger) (token : String) (x : Result TaskError Decision)
      → IsEarly l
      → l.verified ≡ true
      → l.claimant ≡ some token
      → l.allowed ≡ says_allow x
      → Obeys run l (after_evaluation sha256_hex run token x)
  unfolding after_evaluation
  after_evaluation-Obeys sha256_hex l token (err e) v p c a =
      release_and_finish-Obeys sha256_hex l token _ v
  after_evaluation-Obeys sha256_hex l token (ok dec) v p c a = (
    tt,
    λ at. (
      tt,
      λ x. elim (Bool-cases (is_allow dec.verdict)) [
        | inl holds ↦ rw holds (
            after_allow-Obeys sha256_hex (record l { recorded = is_none x && true }) token dec x v p
              c (a ∙ holds) (ground arith))
        | inr fails ↦
            rw fails
              (deny-Obeys sha256_hex (record l { recorded = is_none x && false }) token dec v)
      ],
    ),
  )

  after_claim-Obeys :
      (sha256_hex : List ℕ → String) (l : Ledger) (token : String)
      (x : Result TaskError ClaimResult)
      → IsEarly l
      → l.verified ≡ true
      → l.claimant ≡ token_if (is_granted x) token
      → l.may_hold ≡ may_be_granted x
      → Obeys run l (after_claim sha256_hex run token x)
  unfolding after_claim
  after_claim-Obeys sha256_hex l token (err e) v p c m =
      release_and_finish-Obeys sha256_hex l token _ v
  after_claim-Obeys sha256_hex l token (ok granted) v p c m = elim (Bool-cases granted.claimed) [
    | inl holds ↦
        let mine : l.claimant ≡ some token = rw holds at c in
        rw holds (
          (λ h. absurd (ground (arith, h, mine))),
          λ x.
              after_evaluation-Obeys sha256_hex (record l { allowed = says_allow x }) token x v p
                mine refl,
        )
    | inr fails ↦ rw fails (reject-Obeys sha256_hex l _ granted.reason granted.detail v (m ∙ fails))
  ]

  after_token-Obeys :
      (sha256_hex : List ℕ → String) (l : Ledger) (x : Result TaskError String)
      → IsEarly l
      → l.verified ≡ true
      → l.may_hold ≡ false
      → Obeys run l (after_token sha256_hex run x)
  unfolding after_token
  after_token-Obeys sha256_hex l (err e) (d, f, o, _, _) p m =
      early-Closes l _ d o (λ h. absurd (ground (arith, m, h)))
  after_token-Obeys sha256_hex l (ok random) v p m = (
    (p, refl),
    λ x.
        after_claim-Obeys sha256_hex
          (record l {
            claimant = token_if (is_granted x) ("exe_" +++ random);
            may_hold = may_be_granted x;
          })
          ("exe_" +++ random) x v p refl refl,
  )

  after_verification-Obeys :
      (sha256_hex : List ℕ → String) (x : Result TaskError IngressVerification)
      → Obeys run
          (record empty_ledger { verified = says_valid x })
          (after_verification sha256_hex run x)
  unfolding after_verification
  after_verification-Obeys sha256_hex (err e) =
      early-Closes _ _ refl refl (λ h. absurd (ground (arith, h)))
  after_verification-Obeys sha256_hex (ok answer) = elim (Bool-cases answer.valid) [
    | inl holds ↦ rw holds (
      tt,
      λ x.
          after_token-Obeys sha256_hex (record empty_ledger { verified = true }) x
            (refl, refl, refl, refl, refl) refl refl,
    )
    | inr fails ↦ rw fails (
        reject-Obeys sha256_hex (record empty_ledger { verified = false }) _ answer.reason
          answer.detail (refl, refl, refl, refl, refl) refl)
  ]

  pub saga-Obeys : (sha256_hex : List ℕ → String) → Obeys run empty_ledger (saga sha256_hex run)
  unfolding saga
  saga-Obeys sha256_hex = (tt, λ x. after_verification-Obeys sha256_hex x)
