-- ===== src/Prelude/Maps.antt =====
-- Go's `map[string]V` as an association list. A Go program visits a map in an unspecified order:
-- a loop over a map visits the order of the list, and theorems hold for every list.
use Prim.Native.String.{String}
use mathlib.Core.Path.{◌≡◌, refl}
use mathlib.Core.List.{List, [], ◌∷◌}
use mathlib.Core.Option.{Option, none, some}
use native.Mathlib.Omega.{arith}
use text.Mathlib.Text.{◌==◌}
use text.Mathlib.TextEquality.{eq_iff}
use tunneld.Prelude.Tests.{if◌then◌else◌}

abbrev pub GoMap {ℓ} : Type ℓ → Type ℓ
GoMap V = List (String × V)

module _ {κ} {Value : Type κ} where
  -- v, ok := m[k]
  unfoldable pub lookup : String → GoMap Value → Option Value
  lookup key [] = none
  lookup key ((name, x) ∷ rest) =
      let later = lookup key rest in if name == key then some x else later

  -- m[k] = v
  unfoldable pub insert : String → Value → GoMap Value → GoMap Value
  insert key new [] = (key, new) ∷ []
  insert key new ((name, x) ∷ rest) =
      let later = insert key new rest in
      if name == key then (key, new) ∷ rest else (name, x) ∷ later

  -- delete(m, k)
  unfoldable pub delete : String → GoMap Value → GoMap Value
  delete key [] = []
  delete key ((name, x) ∷ rest) =
      let later = delete key rest in if name == key then later else (name, x) ∷ later

  pub lookup-insert :
      (key other : String) (new : Value) (m : GoMap Value)
      → lookup other (insert key new m) ≡ (if key == other then some new else lookup other m)
  unfolding lookup insert
  lookup-insert key other new [] = refl
  lookup-insert key other new ((name, x) ∷ rest) =
      let later = lookup-insert key other new rest in
      ground (arith, later, eq_iff name key, eq_iff name other, eq_iff key other)

  pub lookup-delete :
      (key other : String) (m : GoMap Value)
      → lookup other (delete key m) ≡ (if key == other then none else lookup other m)
  unfolding lookup delete
  lookup-delete key other [] = ground arith
  lookup-delete key other ((name, x) ∷ rest) =
      let later = lookup-delete key other rest in
      ground (arith, later, eq_iff name key, eq_iff name other, eq_iff key other)

-- A Go map holds a key once.
abbrev pub HasUniqueKeys {κ} : {Value : Type κ} → GoMap Value → Type κ
HasUniqueKeys [] = Unit
HasUniqueKeys ((name, x) ∷ rest) = (lookup name rest ≡ none) × HasUniqueKeys rest

pub ruleset map_laws = (lookup-insert, lookup-delete)
