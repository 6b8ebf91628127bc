-- ===== src/Shared/Sets.antt =====
-- QSet as a list of numbers.
use Prim.Native.Nat.{ℕ, ◌≤◌}
use mathlib.Core.Path.{◌≡◌, refl}
use mathlib.Core.Logic.{◌≢◌}
use mathlib.Core.Bool.{Bool, true, false, ◌||◌}
use mathlib.Core.List.{List, [], ◌∷◌, ◌++◌}
use native.Mathlib.Omega.{arith}
use qin_db.Shared.Tests.{◌==◌, if◌then◌else◌}
use qin_db.Shared.Lists.{length}

unfoldable pub contains : ℕ → List ℕ → Bool
contains a [] = false
contains a (x ∷ xs) = x == a || contains a xs

unfoldable pub insert : ℕ → List ℕ → List ℕ
unfolding contains
insert a xs = if contains a xs then xs else a ∷ xs

unfoldable pub remove : ℕ → List ℕ → List ℕ
remove a [] = []
remove a (x ∷ xs) = let rest = remove a xs in if x == a then rest else x ∷ rest

pub contains-nil : (a : ℕ) → contains a [] ≡ false
unfolding contains
contains-nil a = refl

pub contains-insert :
    (a b : ℕ) (xs : List ℕ) → contains b (insert a xs) ≡ (if a == b then true else contains b xs)
unfolding insert
contains-insert a b xs = ground arith

pub contains-remove :
    (a b : ℕ) (xs : List ℕ) → contains b (remove a xs) ≡ (if a == b then false else contains b xs)
unfolding contains remove
contains-remove a b [] = ground arith
contains-remove a b (x ∷ xs) = ground (arith, contains-remove a b xs)

pub contains-ne-nil : (a : ℕ) (xs : List ℕ) → contains a xs ≡ true → xs ≢ []
unfolding contains
contains-ne-nil a [] h = cc
contains-ne-nil a (x ∷ xs) h = λ e. cc

-- A set of one element holds nothing else.
pub contains_one :
    (a b : ℕ) (xs : List ℕ) → length xs ≡ 1 → contains a xs ≡ true → contains b xs ≡ true → a ≡ b
unfolding contains
contains_one a b [] e ha hb = cc
contains_one a b (x ∷ []) e ha hb = ground arith
contains_one a b (x ∷ y ∷ xs) e ha hb = absurd (omega arith)

pub length-remove_le : (a : ℕ) (xs : List ℕ) → length (remove a xs) ≤ length xs
unfolding remove
length-remove_le a [] = omega arith
length-remove_le a (x ∷ xs) = ground (arith, length-remove_le a xs)

-- No element stands twice.
abbrev pub Distinct : List ℕ → Type 0
Distinct [] = Unit
Distinct (x ∷ xs) = (contains x xs ≡ false) × Distinct xs

pub contains-append :
    (a : ℕ) (xs ys : List ℕ) → contains a (xs ++ ys) ≡ (contains a xs || contains a ys)
unfolding contains
contains-append a [] ys = refl
contains-append a (x ∷ xs) ys = ground (arith, contains-append a xs ys)

-- What is pushed at the back of a free list.
pub contains-push :
    (a b : ℕ) (xs : List ℕ) → contains b (xs ++ (a ∷ [])) ≡ (if a == b then true else contains b xs)
unfolding contains
contains-push a b xs = ground (arith, contains-append b xs (a ∷ []))

pub Distinct-push :
    (a : ℕ) (xs : List ℕ) → contains a xs ≡ false → Distinct xs → Distinct (xs ++ (a ∷ []))
unfolding contains
Distinct-push a [] h d = (refl, tt)
Distinct-push a (x ∷ xs) h d =
    (ground (arith, contains-append x xs (a ∷ [])), Distinct-push a xs (ground arith) d.1)
