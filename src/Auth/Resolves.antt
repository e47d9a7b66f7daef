-- ===== src/Auth/Resolves.antt =====
-- `Resolve` finds the agent of a key, and no other.
use sentry_gate_ai.Prelude.{
  String, ℕ, zero, suc, ◌+◌, Bool, true, false, ◌||◌, ◌==◌, List, [], ◌∷◌, Option, none, some, ◌≡◌,
  ◌↔◌, refl, arith, eq_iff, Bool-cases, inl, inr, ◌∙◌, sym, subst, ap, if◌then◌else◌,
}
use sentry_gate_ai.Prelude.Lists.{get_elem?, any}
use sentry_gate_ai.Auth.{KeyEntry, Keyring, key_digest, compare_all, agent_at, resolve}
use sentry_gate_ai.Auth.Keys.{IsKeyring}

matches : String → KeyEntry → Bool
matches d e = d == e.digest

found_any :
    (d : String) (i : ℕ) (es : Keyring) (m : Option ℕ) (f : Bool)
    → (compare_all d i es m f).1 ≡ (f || any (matches d) es)
unfolding compare_all matches
found_any d i [] m f = ground arith
found_any d i (e ∷ es) m f =
    ground
      (arith, found_any d (suc i) es (if d == e.digest then some i else m) (f || d == e.digest))

any_at :
    (p : KeyEntry → Bool) (es : Keyring) (i : ℕ) (e : KeyEntry)
    → get_elem? es i ≡ some e
    → p e ≡ true
    → any p es ≡ true
any_at p [] i e g h = absurd (ground (arith, g))
any_at p (x ∷ es) zero e g h = ground (arith, g, h)
any_at p (x ∷ es) (suc i) e g h = ground (arith, any_at p es i e g h)

matches_digest : (d : String) (e : KeyEntry) → e.digest ≡ d → matches d e ≡ true
unfolding matches
matches_digest d e h = (eq_iff d e.digest).1 (sym h)

-- A match that was found is the index of an entry with the digest.
abbrev Points : Keyring → String → Option ℕ → Bool → Type 0
Points k d m f =
    f ≡ true → (j : ℕ) × (e : KeyEntry) × (m ≡ some j) × (get_elem? k j ≡ some e) × (e.digest ≡ d)

point_at :
    (k : Keyring) (d : String) (i : ℕ) (e : KeyEntry) (m : Option ℕ) (f : Bool)
    → get_elem? k i ≡ some e
    → Points k d m f
    → Points k d (if d == e.digest then some i else m) (f || d == e.digest)
point_at k d i e m f g v h = elim (Bool-cases (d == e.digest)) [
  | inl same ↦ (i, e, rw same, g, sym ((eq_iff d e.digest).0 same))
  | inr other ↦
      let (j, x, at, found, named) = v (ground (arith, other, h)) in
      (j, x, rw other at, found, named)
]

compare_all-Points :
    (k : Keyring) (d : String) (i : ℕ) (es : Keyring) (m : Option ℕ) (f : Bool)
    → ((j : ℕ) (e : KeyEntry) → get_elem? es j ≡ some e → get_elem? k (i + j) ≡ some e)
    → Points k d m f
    → Points k d (compare_all d i es m f).0 (compare_all d i es m f).1
unfolding compare_all
compare_all-Points k d i [] m f h v = v
compare_all-Points k d i (e ∷ es) m f h v =
    compare_all-Points k d (suc i) es (if d == e.digest then some i else m) (f || d == e.digest)
      (λ j x g.
        let shift : i + suc j ≡ suc i + j = omega arith in
        subst (λ n. get_elem? k n ≡ some x) shift (h (suc j) x g))
      (point_at k d i e m f
        (let start : i + 0 ≡ i = omega arith in
          subst (λ n. get_elem? k n ≡ some e) start (h 0 e refl))
        v)

module _ (sha256_hex : List ℕ → String) (space : ℕ → Bool) (k : Keyring) (key : String) where
  abbrev searched : Option ℕ × Bool
  searched = compare_all (key_digest sha256_hex space key) 0 k none false

  searched-Points : Points k (key_digest sha256_hex space key) searched.0 searched.1
  searched-Points =
      compare_all-Points k (key_digest sha256_hex space key) 0 k none false
        (λ j e g.
          (let same : 0 + j ≡ j = omega arith in subst (λ n. get_elem? k n ≡ some e) (sym same) g))
        (λ h. absurd (ground (arith, h)))

  -- `agent_at` on a found match.
  agent_at-found :
      (found : Option ℕ × Bool) (j : ℕ) (e : KeyEntry)
      → found.1 ≡ true
      → found.0 ≡ some j
      → get_elem? k j ≡ some e
      → agent_at k found ≡ some e.agent_id
  unfolding agent_at
  agent_at-found (none, f) j e t m g = absurd (ground (arith, m))
  agent_at-found (some i, false) j e t m g = absurd (ground (arith, t))
  agent_at-found (some i, true) j e t m g = ground (arith, m, g)

  agent_at-missed : (found : Option ℕ × Bool) → found.1 ≡ false → agent_at k found ≡ none
  unfolding agent_at
  agent_at-missed (m, false) h = refl
  agent_at-missed (m, true) h = absurd (ground (arith, h))

  -- Over a keyring without duplicates, `Resolve` answers an agent exactly when that agent's entry
  -- has the digest of the presented key.
  pub resolve_iff :
      (id : String)
      → IsKeyring k
      → (resolve sha256_hex space k key ≡ some id) ↔ (
          (i : ℕ) × (e : KeyEntry) × (get_elem? k i ≡ some e)
          × (e.digest ≡ key_digest sha256_hex space key)
          × (e.agent_id ≡ id))
  unfolding resolve
  resolve_iff id v = (
    λ h. elim (Bool-cases searched.1) [
      | inl found ↦
          let (j, e, m, g, d) = searched-Points found in
          (j, e, g, d, ground (arith, agent_at-found searched j e found m g, h))
      | inr missed ↦ absurd (ground (arith, agent_at-missed searched missed, h))
    ],
    λ (i, e, g, d, named).
        let found : searched.1 ≡ true =
          found_any (key_digest sha256_hex space key) 0 k none false
          ∙ any_at (matches (key_digest sha256_hex space key)) k i e g
              (matches_digest (key_digest sha256_hex space key) e d) in
        let (j, x, m, at, same) = searched-Points found in
        let index = v.keys i j e x g at (d ∙ sym same) in
        let entry : some e ≡ some x = sym g ∙ (ap (get_elem? k) index ∙ at) in
        agent_at-found searched j x found m at ∙ ground (arith, entry, named),
  )
