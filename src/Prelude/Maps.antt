-- ===== src/Prelude/Maps.antt =====
-- `HashMap<String, V>` and `BTreeMap<String, V>` as association lists: the program looks keys up
-- and never depends on the order of the entries.
use Prim.Native.String.{String}
use mathlib.Core.Path.{◌≡◌, refl}
use mathlib.Core.Bool.{Bool}
use mathlib.Core.Option.{Option, none, some}
use mathlib.Core.List.{List, [], ◌∷◌}
use native.Mathlib.Omega.{arith}
use text.Mathlib.Text.{◌==◌}
use text.Mathlib.TextEquality.{eq_iff}
use picoshift.Prelude.Tests.{if◌then◌else◌}
use picoshift.Prelude.Options.{keep_if}

abbrev pub Map {ℓ} : Type ℓ → Type ℓ
Map V = List (String × V)

module _ {ℓ} {V : Type ℓ} where
  unfoldable pub lookup : String → Map V → Option V
  lookup k [] = none
  lookup k ((j, v) ∷ m) = if j == k then some v else lookup k m

  unfoldable pub remove : String → Map V → Map V
  remove k [] = []
  remove k ((j, v) ∷ m) = let rest = remove k m in if j == k then rest else (j, v) ∷ rest

  unfoldable pub insert : String → V → Map V → Map V
  insert k v m = (k, v) ∷ remove k m

  -- `HashMap::retain`
  unfoldable pub retain : (V → Bool) → Map V → Map V
  retain p [] = []
  retain p ((j, v) ∷ m) = let rest = retain p m in if p v then (j, v) ∷ rest else rest

  pub lookup-remove :
      (k j : String) (m : Map V) → lookup j (remove k m) ≡ (if k == j then none else lookup j m)
  unfolding lookup remove
  lookup-remove k j [] = ground arith
  lookup-remove k j ((i, v) ∷ m) =
      ground (arith, lookup-remove k j m, eq_iff i k, eq_iff i j, eq_iff k j)

  pub lookup-insert :
      (k j : String) (v : V) (m : Map V)
      → lookup j (insert k v m) ≡ (if k == j then some v else lookup j m)
  unfolding lookup insert
  lookup-insert k j v m = ground (arith, lookup-remove k j m)

  -- Each key once, as in a hash map.
  abbrev pub IsMap : Map V → Type ℓ
  IsMap [] = Unit
  IsMap ((j, v) ∷ m) = (lookup j m ≡ none) × IsMap m

  remove-absent : (k : String) (m : Map V) → lookup k (remove k m) ≡ none
  remove-absent k m = ground (arith, lookup-remove k k m, eq_iff k k)

  pub remove-IsMap : (k : String) (m : Map V) → IsMap m → IsMap (remove k m)
  unfolding remove
  remove-IsMap k [] h = tt
  remove-IsMap k ((j, v) ∷ m) h = ground (arith, lookup-remove k j m, remove-IsMap k m h.1)

  pub insert-IsMap : (k : String) (v : V) (m : Map V) → IsMap m → IsMap (insert k v m)
  unfolding insert
  insert-IsMap k v m h = (remove-absent k m, remove-IsMap k m h)

  retain-absent :
      (p : V → Bool) (k : String) (m : Map V) → lookup k m ≡ none → lookup k (retain p m) ≡ none
  unfolding lookup retain
  retain-absent p k [] h = refl
  retain-absent p k ((j, v) ∷ m) h = ground (arith, retain-absent p k m)

  pub retain-IsMap : (p : V → Bool) (m : Map V) → IsMap m → IsMap (retain p m)
  unfolding retain
  retain-IsMap p [] h = tt
  retain-IsMap p ((j, v) ∷ m) h = ground (arith, retain-absent p j m h.0, retain-IsMap p m h.1)

  pub lookup-retain :
      (p : V → Bool) (k : String) (m : Map V)
      → IsMap m
      → lookup k (retain p m) ≡ keep_if p (lookup k m)
  unfolding lookup retain
  lookup-retain p k [] h = refl
  lookup-retain p k ((j, v) ∷ m) h =
      ground (arith, retain-absent p k m, lookup-retain p k m h.1, eq_iff j k)
