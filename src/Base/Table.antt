-- ===== src/Base/Table.antt =====
-- A table of a database with a numeric primary key, and a Go map with text keys.
use go_agent_api.Base.Tests.{if◌then◌else◌}
use mathlib.Core.Path.{◌≡◌, refl}
use mathlib.Core.Option.{Option, none, some}
use mathlib.Core.List.{List, [], ◌∷◌}
use Prim.Native.String.{String}
use native.Mathlib.Omega.{arith}
use text.Mathlib.Text.{◌==◌ as str_eq}
use text.Mathlib.TextEquality.{eq_iff}

abbrev pub Map {ℓ} : Type ℓ → Type ℓ
Map V = List (String × V)

module _ {ℓ} {V : Type ℓ} where
  unfoldable pub lookup : String → Map V → Option V
  lookup key [] = none
  lookup key ((name, value) ∷ rest) = if str_eq name key then some value else lookup key rest

  -- `m[key] = value`
  unfoldable pub insert : String → V → Map V → Map V
  insert key new [] = (key, new) ∷ []
  insert key new ((name, value) ∷ rest) =
      if str_eq name key then (key, new) ∷ rest else (name, value) ∷ insert key new rest

  -- `delete(m, key)`
  unfoldable pub delete : String → Map V → Map V
  delete key [] = []
  delete key ((name, value) ∷ rest) =
      let others = delete key rest in if str_eq name key then others else (name, value) ∷ others

  -- A search after a write.
  pub lookup-insert :
      (key other : String) (new : V) (m : Map V)
      → lookup other (insert key new m) ≡ (if str_eq key other then some new else lookup other m)
  unfolding lookup insert
  lookup-insert key other new [] = refl
  lookup-insert key other new ((name, value) ∷ rest) = ground (
    arith,
    eq_iff name key,
    eq_iff key other,
    eq_iff name other,
    lookup-insert key other new rest,
  )

  -- A search after a removal.
  pub lookup-delete :
      (key other : String) (m : Map V)
      → lookup other (delete key m) ≡ (if str_eq key other then none else lookup other m)
  unfolding lookup delete
  lookup-delete key other [] = ground arith
  lookup-delete key other ((name, value) ∷ rest) =
      ground
        (arith, eq_iff name key, eq_iff key other, eq_iff name other, lookup-delete key other rest)
