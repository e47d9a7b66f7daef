-- ===== src/Prelude/Int.antt =====
-- Go's `int` where it may be negative, over the native numbers: `negsuc n` is -(n + 1).
use Prim.Native.Nat.{ℕ}
use mathlib.Core.Bool.{Bool, true, false}
use sentry_gate_ai.Prelude.Tests.{ltb}

pub data ℤ : Type 0 where
  pos : ℕ → ℤ
  negsuc : ℕ → ℤ

-- `i < n` for a constant `n`
abbrev pub int_lt : ℤ → ℕ → Bool
int_lt (pos i) n = ltb i n
int_lt (negsuc _) n = true

-- `n < i` for a constant `n`
abbrev pub int_gt : ℤ → ℕ → Bool
int_gt (pos i) n = ltb n i
int_gt (negsuc _) n = false
