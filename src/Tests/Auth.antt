-- ===== src/Tests/Auth.antt =====
-- The properties of the keyring at a concrete specification.
use sentry_gate_ai.Decision.Hash.{bytes}
use sentry_gate_ai.Prelude.Pattern.{one_then}
use sentry_gate_ai.Prelude.{
  String, ℕ, Bool, List, [], ◌∷◌, some, ◌≡◌, ◌↔◌, refl, nat_eq, if◌then◌else◌,
}
use sentry_gate_ai.Prelude.Lists.{get_elem?}
use sentry_gate_ai.Contracts.{ok}
use sentry_gate_ai.Auth.{KeyEntry, Keyring, parse_agent_keys, resolve, key_digest}
use sentry_gate_ai.Auth.Keys.{IsKeyring, parse_agent_keys-IsKeyring}
use sentry_gate_ai.Auth.Resolves.{resolve_iff}

-- A stand-in for the digest that tells the two keys apart.
abbrev first_digit : List ℕ → String
first_digit [] = "none"
first_digit (b ∷ _) = if nat_eq b 48 then "zero" else "other"

abbrev is_blank : ℕ → Bool
is_blank c = nat_eq c 32

abbrev two_agents : String
two_agents = " agent-1:0123456789abcdef,agent-2:fedcba9876543210 "

abbrev keyring : Keyring
keyring =
    record { agent_id = "agent-1"; digest = "zero" }
    ∷ record { agent_id = "agent-2"; digest = "other" }
    ∷ []

keyring_parses : parse_agent_keys first_digit is_blank two_agents ≡ ok keyring
unfolding parse_agent_keys one_then
keyring_parses = refl

parse_agent_keys-IsKeyring_example : IsKeyring keyring
parse_agent_keys-IsKeyring_example =
    parse_agent_keys-IsKeyring first_digit is_blank two_agents keyring keyring_parses

resolve_iff_example : (resolve first_digit is_blank keyring "0123456789abcdef" ≡ some "agent-1") ↔ (
    (i : ℕ) × (e : KeyEntry) × (get_elem? keyring i ≡ some e)
    × (e.digest ≡ key_digest first_digit is_blank "0123456789abcdef")
    × (e.agent_id ≡ "agent-1"))
resolve_iff_example =
    resolve_iff first_digit is_blank keyring "0123456789abcdef" "agent-1"
      (parse_agent_keys-IsKeyring first_digit is_blank two_agents keyring keyring_parses)

resolve_runs : resolve first_digit is_blank keyring "0123456789abcdef" ≡ some "agent-1"
unfolding resolve bytes
resolve_runs = refl
