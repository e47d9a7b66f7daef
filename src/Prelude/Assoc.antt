-- ===== src/Prelude/Assoc.antt =====
-- A Go map with string keys: an association list in which a key's first entry counts.
use Prim.Native.String.{String}
use text.Mathlib.Text.{◌==◌}
use text.Mathlib.TextEquality.{eq_iff}
use text.Mathlib.TextPositions.{eq_refl}
use mathlib.Core.Path.{◌≡◌, refl}
use mathlib.Core.Logic.{◌≢◌}
use mathlib.Core.Bool.{Bool, true, false}
use mathlib.Core.Option.{Option, none, some}
use mathlib.Core.List.{List, [], ◌∷◌}
use native.Mathlib.Omega.{arith}
use sentry_gate_ai.Prelude.Tests.{if◌then◌else◌}

abbrev pub Map {ℓ} : Type ℓ → Type ℓ
Map V = List (String × V)

module _ {ℓ} {V : Type ℓ} where
  -- `m[key]`
  unfoldable pub lookup : String → Map V → Option V
  lookup key [] = none
  lookup key ((name, value) ∷ rest) = if name == key then some value else lookup key rest

  -- `_, ok := m[key]`
  unfoldable pub has : String → Map V → Bool
  has key entries = elim (lookup key entries) [ none ↦ false | some _ ↦ true ]

  -- `m[key] = x`
  unfoldable pub insert : String → V → Map V → Map V
  insert key x [] = (key, x) ∷ []
  insert key x ((name, value) ∷ rest) =
      if name == key then (key, x) ∷ rest else (name, value) ∷ insert key x rest

  pub lookup-insert :
      (key other : String) (x : V) (entries : Map V)
      → lookup other (insert key x entries)
        ≡ (if key == other then some x else lookup other entries)
  unfolding lookup insert
  lookup-insert key other x [] = refl
  lookup-insert key other x ((name, value) ∷ rest) =
      let later = lookup-insert key other x rest in
      ground (arith, later, eq_iff name other, eq_iff name key, eq_iff key other)

  pub lookup-insert_self :
      (key : String) (x : V) (entries : Map V) → lookup key (insert key x entries) ≡ some x
  lookup-insert_self key x entries = simp (lookup-insert, eq_refl)

  pub lookup-insert_ne :
      (key other : String) (x : V) (entries : Map V)
      → key ≢ other
      → lookup other (insert key x entries) ≡ lookup other entries
  lookup-insert_ne key other x entries h =
      ground (arith, lookup-insert key other x entries, eq_iff key other)

  -- `delete(m, key)`
  unfoldable pub erase : String → Map V → Map V
  erase key [] = []
  erase key ((name, value) ∷ rest) =
      let later = erase key rest in if name == key then later else (name, value) ∷ later

  pub lookup-erase :
      (key other : String) (entries : Map V)
      → lookup other (erase key entries) ≡ (if key == other then none else lookup other entries)
  unfolding lookup erase
  lookup-erase key other [] = ground (arith, eq_iff key other)
  lookup-erase key other ((name, value) ∷ rest) =
      let later = lookup-erase key other rest in
      ground (arith, later, eq_iff name other, eq_iff name key, eq_iff key other)
