-- ===== src/Auth.antt =====
-- internal/auth/agentkeys.go: the keyring of agent API keys. SHA-256 is the parameter `sha256_hex`,
-- whose output is a text, and `space` is `unicode.IsSpace` on a code point. The HTTP middleware is
-- modelled by what it passes on: the agent of an authenticated request.
pub mod Context
pub mod Keys
pub mod Resolves
use sentry_gate_ai.Prelude.{
  ◌+++◌, String, ℕ, zero, suc, ◌+◌, Bool, true, false, not, ◌||◌, ◌==◌, List, [], ◌∷◌, Option, none,
  some, ltb, nat_eq, if◌then◌else◌,
}
use Prim.Native.Char.{code}
use sentry_gate_ai.Prelude.Lists.{length, get_elem?, any}
use sentry_gate_ai.Prelude.Pattern.{id_char, one_then}
use sentry_gate_ai.Contracts.{Result, ok, err}
use sentry_gate_ai.Decision.Hash.{bytes}

abbrev pub min_key_length : ℕ
min_key_length = 16

abbrev pub max_key_length : ℕ
max_key_length = 256

unfoldable pub agent_id_pattern : String → Bool
agent_id_pattern = one_then id_char id_char 63

pub record KeyEntry : Type 0 where
  pub agent_id : String
  pub digest : String

abbrev pub Keyring : Type 0
Keyring = List KeyEntry

-- One for each message, with the entry's position and agent ID.
pub data KeyError : Type 0 where
  no_entries : KeyError
  no_colon invalid_id : ℕ → KeyError
  short_key long_key key_with_space duplicate_id duplicate_key : ℕ → String → KeyError

-- `strings.TrimSpace`
unfoldable pub trim_start : (ℕ → Bool) → String → String
trim_start space String.[] = ""
trim_start space (String.◌∷◌ c s) =
    let rest = trim_start space s in if space (code c) then rest else String.◌∷◌ c s

unfoldable pub trim_end : (ℕ → Bool) → String → String
trim_end space String.[] = ""
trim_end space (String.◌∷◌ c s) =
    let rest = trim_end space s in
    if rest == "" then (if space (code c) then "" else String.◌∷◌ c "") else String.◌∷◌ c rest

-- `strings.Split(s, ",")`
abbrev add_first : String → List String → List String
add_first s [] = s ∷ []
add_first s (p ∷ ps) = (s +++ p) ∷ ps

unfoldable pub split_commas : String → List String
split_commas String.[] = "" ∷ []
split_commas (String.◌∷◌ c s) =
    let rest = split_commas s in
    if nat_eq (code c) b',' then "" ∷ rest else add_first (String.◌∷◌ c "") rest

-- `strings.Cut(s, ":")`
unfoldable pub cut_colon : String → Option (String × String)
cut_colon String.[] = none
cut_colon (String.◌∷◌ c s) =
    let rest = cut_colon s in
    if nat_eq (code c) b':'
    then some ("", s)
    else elim rest [ none ↦ none | some (before, after) ↦ some (String.◌∷◌ c before, after) ]

unfoldable pub has_space : (ℕ → Bool) → String → Bool
has_space space String.[] = false
has_space space (String.◌∷◌ c s) = space (code c) || has_space space s

abbrev pub contains : String → List String → Bool
contains s l = any (λ x. x == s) l

-- The loop of `Resolve`: the index of the last match and whether there is one.
unfoldable pub compare_all : String → ℕ → Keyring → Option ℕ → Bool → Option ℕ × Bool
compare_all digest i [] match found = (match, found)
compare_all digest i (e ∷ es) match found =
    compare_all digest (suc i) es (if digest == e.digest then some i else match)
      (found || digest == e.digest)

unfoldable pub agent_at : Keyring → Option ℕ × Bool → Option String
agent_at k (match, false) = none
agent_at k (none, true) = none
agent_at k (some i, true) = elim (get_elem? k i) [ none ↦ none | some e ↦ some e.agent_id ]

module _ (sha256_hex : List ℕ → String) (space : ℕ → Bool) where
  abbrev pub key_digest : String → String
  key_digest key = sha256_hex (bytes key)

  -- The checks of one entry, after those of the entries before it.
  unfoldable pub check_entry :
      ℕ → List String → List String → Option (String × String) → Result KeyError KeyEntry
  unfolding agent_id_pattern has_space bytes
  check_entry at seen_ids seen_keys none = err (KeyError.no_colon at)
  check_entry at seen_ids seen_keys (some (id, key)) =
      if not (agent_id_pattern id)
      then err (KeyError.invalid_id at)
      else if ltb (length (bytes key)) min_key_length
      then err (KeyError.short_key at id)
      else if ltb max_key_length (length (bytes key))
      then err (KeyError.long_key at id)
      else if has_space space key
      then err (KeyError.key_with_space at id)
      else if contains id seen_ids
      then err (KeyError.duplicate_id at id)
      else if contains (key_digest key) seen_keys
      then err (KeyError.duplicate_key at id)
      else ok (record { agent_id = id; digest = key_digest key })

  -- The loop over the entries.
  unfoldable pub parse_entries :
      ℕ → List String → List String → List String → Result KeyError Keyring
  unfolding check_entry cut_colon
  parse_entries at seen_ids seen_keys [] = ok []
  parse_entries at seen_ids seen_keys (part ∷ parts) =
      elim (check_entry at seen_ids seen_keys (cut_colon part)) [
        | err e ↦ err e
        | ok entry ↦
            elim (parse_entries (suc at) (entry.agent_id ∷ seen_ids) (entry.digest ∷ seen_keys)
              parts) [ err e ↦ err e | ok entries ↦ ok (entry ∷ entries) ]
      ]

  -- `ParseAgentKeys`
  unfoldable pub parse_agent_keys : String → Result KeyError Keyring
  unfolding parse_entries trim_start trim_end split_commas
  parse_agent_keys spec =
      let trimmed = trim_end space (trim_start space spec) in
      if trimmed == ""
      then err KeyError.no_entries
      else parse_entries 1 [] [] (split_commas trimmed)

  -- `Resolve`, and what `Middleware` passes on
  unfoldable pub resolve : Keyring → String → Option String
  unfolding compare_all agent_at
  resolve k presented = agent_at k (compare_all (key_digest presented) 0 k none false)
