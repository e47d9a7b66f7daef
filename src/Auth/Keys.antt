-- ===== src/Auth/Keys.antt =====
-- A key resolves to the agent that it was configured for, and to no other.
use sentry_gate_ai.Auth.{
  parse_agent_keys, split_commas, trim_end, trim_start, KeyEntry, Keyring, contains, check_entry,
  parse_entries, cut_colon,
}
use sentry_gate_ai.Prelude.{
  ap, sym, subst, eq_iff, ◌==◌, refl, List, String, ◌≡◌, zero, suc, ℕ, Bool, false, [], ◌∷◌, Option,
  none, some, arith, inl, inr,
}
use sentry_gate_ai.Prelude.Lists.{get_elem?}
use sentry_gate_ai.Contracts.{ok, Result-cases}

-- No two entries agree in the given field.
abbrev pub AreDistinct : (KeyEntry → String) → Keyring → Type 0
AreDistinct name k =
    (i j : ℕ) (e f : KeyEntry)
    → get_elem? k i ≡ some e
    → get_elem? k j ≡ some f
    → name e ≡ name f
    → i ≡ j

pub record IsKeyring (k : Keyring) : Type 0 where
  pub ids : AreDistinct (λ e. e.agent_id) k
  pub keys : AreDistinct (λ e. e.digest) k

some_inj : {A : Type 0} {x y : A} → some x ≡ some y → x ≡ y
some_inj h = ground (arith, h)

cons-distinct :
    (name : KeyEntry → String) (entry : KeyEntry) (rest : Keyring)
    → AreDistinct name rest
    → ((j : ℕ) (f : KeyEntry) → get_elem? rest j ≡ some f → (name entry == name f) ≡ false)
    → AreDistinct name (entry ∷ rest)
cons-distinct name entry rest d new zero zero e f g h s = refl
cons-distinct name entry rest d new zero (suc j) e f g h s =
    absurd (ground (arith, new j f h, eq_iff (name entry) (name f), ap name (some_inj g), s))
cons-distinct name entry rest d new (suc i) zero e f g h s =
    absurd (ground (arith, new i e g, eq_iff (name entry) (name e), ap name (some_inj h), s))
cons-distinct name entry rest d new (suc i) (suc j) e f g h s = ap suc (d i j e f g h s)

module _ (sha256_hex : List ℕ → String) (space : ℕ → Bool) where
  -- An accepted entry is new.
  check_entry-fresh :
      (at : ℕ) (ids keys : List String) (c : Option (String × String)) (e : KeyEntry)
      → check_entry sha256_hex space at ids keys c ≡ ok e
      → (contains e.agent_id ids ≡ false) × (contains e.digest keys ≡ false)
  unfolding check_entry
  check_entry-fresh at ids keys none e h = absurd (ground (arith, h))
  check_entry-fresh at ids keys (some (id, key)) e h = ground (arith, h)

  -- What one more entry of an accepted specification was.
  record IsStep (at : ℕ) (ids keys : List String) (parts : List String) (k : Keyring) : Type 0 where
    entry : KeyEntry
    rest : Keyring
    whole : k ≡ entry ∷ rest
    new_id : contains entry.agent_id ids ≡ false
    new_key : contains entry.digest keys ≡ false
    later :
        parse_entries sha256_hex space (suc at) (entry.agent_id ∷ ids) (entry.digest ∷ keys) parts
        ≡ ok rest

  parse_entries-IsStep :
      (at : ℕ) (ids keys : List String) (p : String) (parts : List String) (k : Keyring)
      → parse_entries sha256_hex space at ids keys (p ∷ parts) ≡ ok k
      → IsStep at ids keys parts k
  unfolding parse_entries
  parse_entries-IsStep at ids keys p parts k h =
      elim (Result-cases (check_entry sha256_hex space at ids keys (cut_colon p))) [
        | inr (x, c) ↦ absurd (ground (arith, h, c))
        | inl (e, c) ↦
            elim (Result-cases (
              parse_entries sha256_hex space (suc at) (e.agent_id ∷ ids) (e.digest ∷ keys) parts)) [
                | inr (x, l) ↦ absurd (ground (arith, h, c, l))
                | inl (rest, l) ↦ record {
                  entry = e;
                  rest = rest;
                  whole = ground (arith, h, c, l);
                  new_id = (check_entry-fresh at ids keys (cut_colon p) e c).0;
                  new_key = (check_entry-fresh at ids keys (cut_colon p) e c).1;
                  later = l;
                }
              ]
      ]

  nothing_parsed :
      (at : ℕ) (ids keys : List String) (k : Keyring) (j : ℕ) (e : KeyEntry)
      → parse_entries sha256_hex space at ids keys [] ≡ ok k
      → get_elem? k j ≡ some e
      → ⊥
  unfolding parse_entries
  nothing_parsed at ids keys [] j e h g = ground (arith, g)
  nothing_parsed at ids keys (x ∷ k) j e h g = ground (arith, h)

  fresh_in_step :
      (at : ℕ) (ids keys parts : List String) (entry : KeyEntry) (rest : Keyring) (j : ℕ)
      (e : KeyEntry)
      → contains entry.agent_id ids ≡ false
      → contains entry.digest keys ≡ false
      → ((i : ℕ)
          → get_elem? rest i ≡ some e
          → (contains e.agent_id (entry.agent_id ∷ ids) ≡ false)
            × (contains e.digest (entry.digest ∷ keys) ≡ false))
      → get_elem? (entry ∷ rest) j ≡ some e
      → (contains e.agent_id ids ≡ false) × (contains e.digest keys ≡ false)
  fresh_in_step at ids keys parts entry rest zero e a b h g = ground (arith, a, b, g)
  fresh_in_step at ids keys parts entry rest (suc j) e a b h g = ground (arith, h j g)

  -- No entry repeats what was seen before.
  parse_entries-fresh :
      (parts : List String) (at : ℕ) (ids keys : List String) (k : Keyring) (j : ℕ) (e : KeyEntry)
      → parse_entries sha256_hex space at ids keys parts ≡ ok k
      → get_elem? k j ≡ some e
      → (contains e.agent_id ids ≡ false) × (contains e.digest keys ≡ false)
  parse_entries-fresh [] at ids keys k j e h g = absurd (nothing_parsed at ids keys k j e h g)
  parse_entries-fresh (p ∷ parts) at ids keys k j e h g =
      let s = parse_entries-IsStep at ids keys p parts k h in
      fresh_in_step at ids keys parts s.entry s.rest j e s.new_id s.new_key
        (λ i.
          parse_entries-fresh parts (suc at) (s.entry.agent_id ∷ ids) (s.entry.digest ∷ keys) s.rest
            i e s.later)
        (rw s.whole at g)

  parse_entries-IsKeyring :
      (parts : List String) (at : ℕ) (ids keys : List String) (k : Keyring)
      → parse_entries sha256_hex space at ids keys parts ≡ ok k
      → IsKeyring k
  parse_entries-IsKeyring [] at ids keys k h = record {
    ids = λ i j e f g. absurd (nothing_parsed at ids keys k i e h g);
    keys = λ i j e f g. absurd (nothing_parsed at ids keys k i e h g);
  }
  parse_entries-IsKeyring (p ∷ parts) at ids keys k h =
      let s = parse_entries-IsStep at ids keys p parts k h in
      let v =
        parse_entries-IsKeyring parts (suc at) (s.entry.agent_id ∷ ids) (s.entry.digest ∷ keys)
          s.rest s.later in
      let fresh = λ (j : ℕ) (f : KeyEntry).
        parse_entries-fresh parts (suc at) (s.entry.agent_id ∷ ids) (s.entry.digest ∷ keys) s.rest j
          f s.later in
      subst IsKeyring (sym s.whole) (record {
        ids =
            cons-distinct (λ e. e.agent_id) s.entry s.rest v.ids
              (λ j f g. ground (arith, (fresh j f g).0));
        keys =
            cons-distinct (λ e. e.digest) s.entry s.rest v.keys
              (λ j f g. ground (arith, (fresh j f g).1));
      })

  -- Every keyring that `ParseAgentKeys` returns has no agent twice and no key digest
  -- twice.
  pub parse_agent_keys-IsKeyring :
      (spec : String) (k : Keyring) → parse_agent_keys sha256_hex space spec ≡ ok k → IsKeyring k
  unfolding parse_agent_keys
  parse_agent_keys-IsKeyring spec k h =
      parse_entries-IsKeyring (split_commas (trim_end space (trim_start space spec))) 1 [] [] k
        (ground (arith, h))
