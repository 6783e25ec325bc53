-- ===== src/Prelude/Lists.antt =====
-- Lists measured by native numbers, predicates over lists, and Boolean membership.
use Prim.Native.Nat.{ℕ, zero, suc, ◌+◌}
use mathlib.Core.Path.{◌≡◌, refl}
use mathlib.Core.Bool.{Bool, false, ◌||◌}
use mathlib.Core.List.{List, [], ◌∷◌, ◌++◌}
use native.Mathlib.Omega.{arith}
use kubecrtutils.Prelude.Class.{Eq, ◌==◌}

module _ {ℓ} {A : Type ℓ} where
  abbrev pub length : List A → ℕ
  length [] = 0
  length (x ∷ xs) = suc (length xs)

  pub length-append : (xs ys : List A) → length (xs ++ ys) ≡ length xs + length ys
  length-append [] ys = omega arith
  length-append (x ∷ xs) ys = omega (arith, length-append xs ys)

  abbrev pub All {κ} : (A → Type κ) → List A → Type κ
  All P [] = Unit
  All P (x ∷ xs) = P x × All P xs

  abbrev pub take : ℕ → List A → List A
  take zero xs = []
  take (suc n) [] = []
  take (suc n) (x ∷ xs) = x ∷ take n xs

  abbrev pub drop : ℕ → List A → List A
  drop zero xs = xs
  drop (suc n) [] = []
  drop (suc n) (x ∷ xs) = drop n xs

-- `slices.Contains`
module _ {ℓ} {A : Type ℓ} ⦃e : Eq A⦄ where
  abbrev pub elem : A → List A → Bool
  elem a [] = false
  elem a (x ∷ xs) = (x == a) || elem a xs

  pub elem-append : (a : A) (xs ys : List A) → elem a (xs ++ ys) ≡ (elem a xs || elem a ys)
  elem-append a [] ys = refl
  elem-append a (x ∷ xs) ys = ground (arith, elem-append a xs ys)
