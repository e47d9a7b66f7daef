-- ===== src/Decision/Claim/Key.antt =====
-- Facts about the transition table and the idempotency key.
use text.Mathlib.TextLemmas.{append_cancel_left}
use sentry_gate_ai.Prelude.{String, ◌≡◌, Bool, true, false, arith}
use sentry_gate_ai.Contracts.{ClaimState}
use sentry_gate_ai.Decision.Claim.{may_advance, execution_key}

-- The adapter may have been called: from here on the decision is used up.
abbrev pub is_used : ClaimState → Bool
is_used ClaimState.executing = true
is_used ClaimState.reconciliation_required = true
is_used ClaimState.completed = true
is_used ClaimState.failed = true
is_used _ = false

-- No transition leads out of the used states.
pub may_advance-used :
    (from to : ClaimState) → may_advance from to ≡ true → is_used from ≡ true → is_used to ≡ true
unfolding may_advance
may_advance-used from to h u = ground arith

-- The fence is entered from CLAIMED only.
pub may_advance-executing :
    (from : ClaimState) → may_advance from ClaimState.executing ≡ true → from ≡ ClaimState.claimed
unfolding may_advance
may_advance-executing from h = ground arith

-- Different decisions have different keys.
pub execution_key_inj : (a b : String) → execution_key a ≡ execution_key b → a ≡ b
unfolding execution_key
execution_key_inj a b e = append_cancel_left "sentrygate.exec.v1:" a b e
