-- ===== src/Prelude/Maps.antt =====
-- Go's `map[string]V` as an association list; an iteration meets the entries in the list's order,
-- so what holds for every list holds for every order of iteration.
use Prim.Native.String.{String}
use mathlib.Core.Path.{◌≡◌, refl}
use mathlib.Core.Logic.{◌⊎◌}
use mathlib.Core.Option.{Option, none, some}
use mathlib.Core.List.{List, [], ◌∷◌}
use native.Mathlib.Omega.{arith}
use text.Mathlib.Text.{◌==◌}
use text.Mathlib.TextEquality.{eq_iff}
use text.Mathlib.TextPositions.{eq_refl}
use shock_absorber.Prelude.Tests.{if◌then◌else◌}

abbrev pub Map {ℓ} : Type ℓ → Type ℓ
Map V = List (String × V)

module _ {ℓ} {V : Type ℓ} where
  -- m[key], with what Go's second result says
  unfoldable pub lookup : String → Map V → Option V
  lookup key [] = none
  lookup key ((at, value) ∷ rest) = if at == key then some value else lookup key rest

  -- m[key] = new
  unfoldable pub insert : String → V → Map V → Map V
  insert key new [] = (key, new) ∷ []
  insert key new ((at, value) ∷ rest) =
      if at == key then (key, new) ∷ rest else (at, value) ∷ insert key new rest

  -- delete(m, key)
  unfoldable pub erase : String → Map V → Map V
  erase key [] = []
  erase key ((at, value) ∷ rest) =
      let left = erase key rest in if at == key then left else (at, value) ∷ left

  -- What a key holds after a write to any key.
  pub lookup-insert :
      (key j : String) (new : V) (m : Map V)
      → lookup j (insert key new m) ≡ (if key == j then some new else lookup j m)
  unfolding lookup insert
  lookup-insert key j new [] = refl
  lookup-insert key j new ((at, value) ∷ rest) =
      ground (arith, lookup-insert key j new rest, eq_iff at j, eq_iff at key, eq_iff key j)

  pub lookup-erase :
      (key j : String) (m : Map V)
      → lookup j (erase key m) ≡ (if key == j then none else lookup j m)
  unfolding lookup erase
  lookup-erase key j [] = ground arith
  lookup-erase key j ((at, value) ∷ rest) =
      ground (arith, lookup-erase key j rest, eq_iff at j, eq_iff at key, eq_iff key j)

  pub lookup-insert_self : (k : String) (v : V) (m : Map V) → lookup k (insert k v m) ≡ some v
  lookup-insert_self k v m = simp (lookup-insert, eq_refl)

  pub lookup-erase_self : (k : String) (m : Map V) → lookup k (erase k m) ≡ none
  lookup-erase_self k m = simp (lookup-erase, eq_refl)

  -- Where a value that is found after a write comes from.
  pub insert-eq_some :
      (k j : String) (v w : V) (m : Map V)
      → lookup j (insert k v m) ≡ some w
      → ((k ≡ j) × (v ≡ w)) ⊎ (lookup j m ≡ some w)
  insert-eq_some k j v w m h = ground (arith, lookup-insert k j v m, eq_iff k j)

  pub erase-eq_some :
      (k j : String) (w : V) (m : Map V) → lookup j (erase k m) ≡ some w → lookup j m ≡ some w
  erase-eq_some k j w m h = ground (arith, lookup-erase k j m, eq_iff k j)

  -- Where a value that is found in a map with a first entry comes from.
  pub cons-eq_some :
      (at key : String) (v w : V) (m : Map V)
      → lookup key ((at, v) ∷ m) ≡ some w
      → ((at ≡ key) × (v ≡ w)) ⊎ (lookup key m ≡ some w)
  unfolding lookup
  cons-eq_some at key v w m h = ground (arith, eq_iff at key)

pub ruleset map_laws = (lookup-insert, lookup-erase, lookup-insert_self, lookup-erase_self, eq_refl)
