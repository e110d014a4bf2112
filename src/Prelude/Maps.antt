-- ===== src/Prelude/Maps.antt =====
-- A `Map` with text keys, in the order of insertion: `set` on a key that is there keeps its place.
use Prim.Native.String.{String}
use mathlib.Core.Path.{◌≡◌, refl}
use mathlib.Core.List.{List, [], ◌∷◌}
use mathlib.Core.Option
use mathlib.Core.Option.{Option, none, some}
use native.Mathlib.Omega.{arith}
use text.Mathlib.Text.{◌==◌}
use text.Mathlib.TextEquality.{eq_iff}
use excubitor.Prelude.Tests.{if◌then◌else◌}

module _ {ℓ} {V : Type ℓ} where
  unfoldable pub lookup : String → List (String × V) → Option V
  lookup code [] = none
  lookup code ((other, value) ∷ table) = if other == code then some value else lookup code table

  unfoldable pub insert : String → V → List (String × V) → List (String × V)
  insert code value [] = (code, value) ∷ []
  insert code value ((other, stored) ∷ table) =
      if other == code then (code, value) ∷ table else (other, stored) ∷ insert code value table

  unfoldable pub remove : String → List (String × V) → List (String × V)
  remove code [] = []
  remove code ((other, stored) ∷ table) =
      if other == code then remove code table else (other, stored) ∷ remove code table

  -- `UPDATE … WHERE key = code`: without such a row, nothing.
  unfoldable pub adjust : String → (V → V) → List (String × V) → List (String × V)
  adjust code f [] = []
  adjust code f ((other, stored) ∷ table) =
      if other == code
      then (other, f stored) ∷ adjust code f table
      else (other, stored) ∷ adjust code f table

  unfoldable pub map_values {κ} : {W : Type κ} → (V → W) → List (String × V) → List (String × W)
  map_values f [] = []
  map_values f ((other, value) ∷ table) = (other, f value) ∷ map_values f table

  pub lookup-insert :
      (code other : String) (value : V) (table : List (String × V))
      → lookup other (insert code value table)
        ≡ (if code == other then some value else lookup other table)
  unfolding lookup insert
  lookup-insert code other value [] = refl
  lookup-insert code other value ((first, stored) ∷ table) = ground (
    arith,
    eq_iff code other,
    eq_iff first code,
    eq_iff first other,
    lookup-insert code other value table,
  )

  pub lookup-remove :
      (code other : String) (table : List (String × V))
      → lookup other (remove code table) ≡ (if code == other then none else lookup other table)
  unfolding lookup remove
  lookup-remove code other [] = ground arith
  lookup-remove code other ((first, stored) ∷ table) = ground (
    arith,
    eq_iff code other,
    eq_iff first code,
    eq_iff first other,
    lookup-remove code other table,
  )

  pub lookup-adjust :
      (code other : String) (f : V → V) (table : List (String × V))
      → lookup other (adjust code f table)
        ≡ (if code == other then Option.map f (lookup other table) else lookup other table)
  unfolding lookup adjust
  lookup-adjust code other f [] = ground arith
  lookup-adjust code other f ((first, stored) ∷ table) = ground (
    arith,
    eq_iff code other,
    eq_iff first code,
    eq_iff first other,
    lookup-adjust code other f table,
  )

pub lookup-map_values {ℓ κ} :
    {V : Type ℓ} {W : Type κ} (f : V → W) (other : String) (table : List (String × V))
    → lookup other (map_values f table) ≡ Option.map f (lookup other table)
unfolding lookup map_values
lookup-map_values f other [] = refl
lookup-map_values f other ((first, value) ∷ table) = ground (arith, lookup-map_values f other table)
