-- ===== src/Shared/Maps.antt =====
-- QHash as an association list over numeric keys. A key stands in it at most once when the list
-- is built by `insert`; the order of the entries is the order of iteration.
use Prim.Native.Nat.{ℕ}
use mathlib.Core.Path.{◌≡◌, refl}
use mathlib.Core.Option.{Option, none, some}
use mathlib.Core.List.{List, [], ◌∷◌}
use native.Mathlib.Omega.{arith}
use qin_db.Shared.Tests.{◌==◌, if◌then◌else◌}

module _ {ℓ} {V : Type ℓ} where
  -- find
  unfoldable pub lookup : ℕ → List (ℕ × V) → Option V
  lookup key [] = none
  lookup key ((first, value) ∷ rest) = if first == key then some value else lookup key rest

  -- operator[] with an assignment
  unfoldable pub insert : ℕ → V → List (ℕ × V) → List (ℕ × V)
  insert key value [] = (key, value) ∷ []
  insert key value ((first, old) ∷ rest) =
      if first == key then (key, value) ∷ rest else (first, old) ∷ insert key value rest

  unfoldable pub remove : ℕ → List (ℕ × V) → List (ℕ × V)
  remove key [] = []
  remove key ((first, old) ∷ rest) =
      let rest' = remove key rest in if first == key then rest' else (first, old) ∷ rest'

  pub lookup-insert :
      (key q : ℕ) (value : V) (entries : List (ℕ × V))
      → lookup q (insert key value entries) ≡ (if key == q then some value else lookup q entries)
  unfolding lookup insert
  lookup-insert key q value [] = refl
  lookup-insert key q value ((first, old) ∷ rest) = ground (arith, lookup-insert key q value rest)

  pub lookup-remove :
      (key q : ℕ) (entries : List (ℕ × V))
      → lookup q (remove key entries) ≡ (if key == q then none else lookup q entries)
  unfolding lookup remove
  lookup-remove key q [] = ground arith
  lookup-remove key q ((first, old) ∷ rest) = ground (arith, lookup-remove key q rest)
