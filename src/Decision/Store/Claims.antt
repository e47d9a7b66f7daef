-- ===== src/Decision/Store/Claims.antt =====
-- `MemoryStore` keeps the laws of a claim store, and what its claim operations do on each branch.
use sentry_gate_ai.Contracts.{
  Error, owner_valid, ctx_err, ok, Time, ClaimState, ClaimOwner, ExecutionClaim, owner_eq_iff,
}
use sentry_gate_ai.Prelude.{
  refl, eq_refl, ◌↔◌, false, ◌==◌, eq_iff, subst, if◌then◌else◌, String, ◌≡◌, ◌≢◌, ◌⊎◌, Bool, true,
  Option, none, some, arith, Option-cases, inl, inr,
}
use sentry_gate_ai.Decision.Store.{
  memory_claim_store, MemoryStore, claim_execution, advance_claim, get_claim,
}
use sentry_gate_ai.Decision.Claim.Contract.{Claims, Advances, ClaimStoreLaws, IsFree, fresh_claim}
use sentry_gate_ai.Prelude.Assoc.{lookup-insert, has, lookup, insert}
use sentry_gate_ai.Decision.Claim.{may_advance}

-- The claim on a decision.
unfoldable pub memory_claim_of : MemoryStore → String → Option ExecutionClaim
memory_claim_of m id = lookup id m.claims

claimed_store : MemoryStore → String → ClaimOwner → Time → MemoryStore
claimed_store m id owner at = record m { claims = insert id (fresh_claim id owner at) m.claims }

moved_store : MemoryStore → String → ExecutionClaim → ClaimState → Time → MemoryStore
moved_store m id c to at = record m {
  claims = insert id (record c { state = to; updated_at = at }) m.claims;
}

-- Already claimed by this owner.
abbrev pub IsHeldBy : ClaimOwner → Option ExecutionClaim → Type 0
IsHeldBy owner none = ⊥
IsHeldBy owner (some c) = (c.owner ≡ owner) × (c.state ≡ ClaimState.claimed)

module _ (m : MemoryStore) (ended : Bool) (id : String) (owner : ClaimOwner) (at : Time) where
  -- `ClaimExecution` takes a free decision, or changes nothing.
  claim_cases :
      (IsFree (lookup id m.claims)
        × (claim_execution m ended id owner at ≡ (claimed_store m id owner at, none)))
      ⊎ (((claim_execution m ended id owner at).0 ≡ m)
          × ((claim_execution m ended id owner at).1 ≡ none → IsHeldBy owner (lookup id m.claims)))
  unfolding claim_execution claimed_store
  claim_cases = elim (Option-cases (lookup id m.claims)) [
    | inl e ↦ ground (arith, e)
    | inr (c, e) ↦ ground (arith, e, owner_eq_iff c.owner owner)
  ]

  -- `AdvanceClaim` moves the owner's claim from a permitted state, or changes nothing.
  advance_cases :
      (to : ClaimState)
      → ((c : ExecutionClaim) × (lookup id m.claims ≡ some c)
          × (c.owner ≡ owner)
          × (may_advance c.state to ≡ true)
          × (advance_claim m ended id owner to at ≡ (moved_store m id c to at, none)))
        ⊎ (((advance_claim m ended id owner to at).0 ≡ m)
            × ((advance_claim m ended id owner to at).1 ≢ none))
  unfolding advance_claim moved_store
  advance_cases to = elim (Option-cases (lookup id m.claims)) [
    | inl e ↦ ground (arith, e)
    | inr (c, e) ↦ ground (arith, e, owner_eq_iff c.owner owner)
  ]

get_done :
    (m : MemoryStore) (ended : Bool) (id : String) (c : ExecutionClaim)
    → get_claim m ended id ≡ ok c
    → memory_claim_of m id ≡ some c
unfolding get_claim memory_claim_of
get_done m ended id c h = ground arith

lookup-claimed_store :
    (m : MemoryStore) (id : String) (owner : ClaimOwner) (at : Time) (d : String)
    → memory_claim_of (claimed_store m id owner at) d
      ≡ (if id == d then some (fresh_claim id owner at) else memory_claim_of m d)
unfolding claimed_store memory_claim_of
lookup-claimed_store m id owner at d = lookup-insert id d (fresh_claim id owner at) m.claims

lookup-moved_store :
    (m : MemoryStore) (id : String) (c : ExecutionClaim) (to : ClaimState) (at : Time) (d : String)
    → memory_claim_of (moved_store m id c to at) d
      ≡ (if id == d then some (record c { state = to; updated_at = at }) else memory_claim_of m d)
unfolding moved_store memory_claim_of
lookup-moved_store m id c to at d =
    lookup-insert id d (record c { state = to; updated_at = at }) m.claims

module _ (m : MemoryStore) (ended : Bool) (id : String) (owner : ClaimOwner) (at : Time) where
  claim_own :
      let m' = (claim_execution m ended id owner at).0 in
      (memory_claim_of m' id ≡ memory_claim_of m id)
      ⊎ Claims id owner at (memory_claim_of m id) (memory_claim_of m' id)
  claim_own = elim (claim_cases m ended id owner at) [
    | inl (free, e) ↦ rw e (
        inr (record {
          free = unfold memory_claim_of in free;
          taken = simp (lookup-claimed_store, eq_refl);
        }))
    | inr (e, _) ↦ rw e (inl refl)
  ]

  claim_other :
      (d : String)
      → id ≢ d
      → memory_claim_of (claim_execution m ended id owner at).0 d ≡ memory_claim_of m d
  claim_other d h = elim (claim_cases m ended id owner at) [
    | inl (free, e) ↦ rw e (ground (arith, lookup-claimed_store m id owner at d, eq_iff id d))
    | inr (e, _) ↦ rw e
  ]

  pub claim_done :
      (claim_execution m ended id owner at).1 ≡ none
      → (c : ExecutionClaim) × (memory_claim_of (claim_execution m ended id owner at).0 id ≡ some c)
        × (c.owner ≡ owner)
        × (c.state ≡ ClaimState.claimed)
  claim_done h = elim (claim_cases m ended id owner at) [
    | inl (free, e) ↦
        rw e (fresh_claim id owner at, simp (lookup-claimed_store, eq_refl), refl, refl)
    | inr (e, held) ↦ rw e (elim (Option-cases (lookup id m.claims)) [
      | inl p ↦ absurd (subst (IsHeldBy owner) p (held h))
      | inr (c, p) ↦
          let (o, s) = subst (IsHeldBy owner) p (held h) in (c, unfold memory_claim_of in p, o, s)
    ])
  ]

  module _ (to : ClaimState) where
    advance_own :
        let m' = (advance_claim m ended id owner to at).0 in
        (memory_claim_of m' id ≡ memory_claim_of m id)
        ⊎ Advances owner to at (memory_claim_of m id) (memory_claim_of m' id)
    advance_own = elim (advance_cases m ended id owner at to) [
      | inl (c, held, owned, permitted, e) ↦ rw e (
          inr (record {
            from = c;
            held = unfold memory_claim_of in held;
            owned = owned;
            permitted = permitted;
            moved = simp (lookup-moved_store, eq_refl);
          }))
      | inr (e, _) ↦ rw e (inl refl)
    ]

    advance_other :
        (d : String)
        → id ≢ d
        → memory_claim_of (advance_claim m ended id owner to at).0 d ≡ memory_claim_of m d
    advance_other d h = elim (advance_cases m ended id owner at to) [
      | inl (c, held, owned, permitted, e) ↦
          rw e (ground (arith, lookup-moved_store m id c to at d, eq_iff id d))
      | inr (e, _) ↦ rw e
    ]

    pub advance_done :
        (advance_claim m ended id owner to at).1 ≡ none
        → Advances owner to at
            (memory_claim_of m id)
            (memory_claim_of (advance_claim m ended id owner to at).0 id)
    advance_done h = elim (advance_cases m ended id owner at to) [
      | inl (c, held, owned, permitted, e) ↦ rw e (record {
        from = c;
        held = unfold memory_claim_of in held;
        owned = owned;
        permitted = permitted;
        moved = simp (lookup-moved_store, eq_refl);
      })
      | inr (_, failed) ↦ absurd (failed h)
    ]

    advance_refused :
        (e : Error)
        → (advance_claim m ended id owner to at).1 ≡ some e
        → (advance_claim m ended id owner to at).0 ≡ m
    advance_refused e h = elim (advance_cases m ended id owner at to) [
      | inl (c, held, owned, permitted, p) ↦ absurd (ground (arith, p))
      | inr (p, _) ↦ p
    ]

-- `MemoryStore` keeps the laws of a claim store, and reads back the times that it was given.
pub memory_claim_store-laws :
    ClaimStoreLaws MemoryStore memory_claim_store memory_claim_of (λ at. at)
memory_claim_store-laws = record {
  claim_own = claim_own;
  claim_other = claim_other;
  claim_done = claim_done;
  advance_own = λ m ended id owner to at. advance_own m ended id owner at to;
  advance_other = λ m ended id owner to at. advance_other m ended id owner at to;
  advance_done = λ m ended id owner to at. advance_done m ended id owner at to;
  advance_refused = λ m ended id owner to at e h _. rw (advance_refused m ended id owner at to e h);
  get_done = get_done;
}

-- `ClaimExecution` in a live context succeeds exactly when the arguments are complete, the decision
-- is recorded, and it is free or already CLAIMED by the same owner.
pub claim_execution_iff :
    (m : MemoryStore) (id : String) (owner : ClaimOwner) (at : Time)
    → ((claim_execution m false id owner at).1 ≡ none) ↔ (
        (id ≢ "")
        × (owner_valid owner ≡ true)
        × (has id m.by_id ≡ true)
        × (IsFree (memory_claim_of m id) ⊎ IsHeldBy owner (memory_claim_of m id)))
unfolding claim_execution memory_claim_of ctx_err
claim_execution_iff m id owner at = elim (Option-cases (lookup id m.claims)) [
  | inl e ↦ (λ h. ground (arith, e, eq_iff id ""), λ h. ground (arith, e, eq_iff id ""))
  | inr (c, e) ↦ (
    λ h. ground (arith, e, eq_iff id "", owner_eq_iff c.owner owner),
    λ h. ground (arith, e, eq_iff id "", owner_eq_iff c.owner owner),
  )
]
