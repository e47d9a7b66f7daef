-- ===== src/Prelude/Pattern.antt =====
-- The regular expressions of the program all have the form `^[first][rest]{0,k}$`: one character
-- of a class, then at most `k` of another. Go's `$` without flags matches at the end only.
use Prim.Native.Char.{code}
use Prim.Native.String.{String}
use Prim.Native.Nat.{ℕ, zero, suc}
use mathlib.Core.Bool.{Bool, true, false, ◌&&◌, ◌||◌}
use sentry_gate_ai.Prelude.Tests.{leb, nat_eq}

abbrev pub is_upper : ℕ → Bool
is_upper c = leb b'A' c && leb c b'Z'

abbrev pub is_lower : ℕ → Bool
is_lower c = leb b'a' c && leb c b'z'

abbrev pub is_digit : ℕ → Bool
is_digit c = leb b'0' c && leb c b'9'

-- `[A-Za-z0-9._-]`
abbrev pub id_char : ℕ → Bool
id_char c =
    is_upper c || is_lower c || is_digit c || nat_eq c b'.' || nat_eq c b'_' || nat_eq c b'-'

-- `[A-Za-z0-9._:-]`
abbrev pub id_colon_char : ℕ → Bool
id_colon_char c = id_char c || nat_eq c b':'

-- `[class]{0,k}$`
unfoldable pub up_to : (ℕ → Bool) → ℕ → String → Bool
up_to cls k String.[] = true
up_to cls zero (String.◌∷◌ c s) = false
up_to cls (suc k) (String.◌∷◌ c s) = cls (code c) && up_to cls k s

-- `^[first][rest]{0,k}$`
unfoldable pub one_then : (ℕ → Bool) → (ℕ → Bool) → ℕ → String → Bool
unfolding up_to
one_then first rest k String.[] = false
one_then first rest k (String.◌∷◌ c s) = first (code c) && up_to rest k s
