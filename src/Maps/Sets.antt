-- ===== src/Maps/Sets.antt =====
-- Go sets (`set.Set`, `sets.Set`) as lists of their elements: only membership is observed.
use kubecrtutils.Prelude.{
  ◌≡◌, refl, not, ◌&&◌, ◌||◌, List, [], ◌∷◌, arith, Eq, ◌==◌, ==_iff, elem, if◌then◌else◌,
}

module _ {ℓ} {A : Type ℓ} ⦃e : Eq A⦄ where
  -- `s.Add(a)`
  unfoldable pub add : A → List A → List A
  add a s = if elem a s then s else a ∷ s

  -- `s.Delete(a)`
  unfoldable pub remove : A → List A → List A
  remove a [] = []
  remove a (x ∷ s) = let rest = remove a s in if x == a then rest else x ∷ rest

  -- `s.Intersection(t)`
  unfoldable pub inter : List A → List A → List A
  inter [] t = []
  inter (x ∷ s) t = let rest = inter s t in if elem x t then x ∷ rest else rest

  pub elem-add : (b a : A) (s : List A) → elem b (add a s) ≡ ((a == b) || elem b s)
  unfolding add
  elem-add b a s = ground (arith, ==_iff a b)

  pub elem-remove : (b a : A) (s : List A) → elem b (remove a s) ≡ (not (a == b) && elem b s)
  unfolding remove
  elem-remove b a [] = ground arith
  elem-remove b a (x ∷ s) = ground (arith, ==_iff x a, ==_iff x b, ==_iff a b, elem-remove b a s)

  pub elem-inter : (b : A) (s t : List A) → elem b (inter s t) ≡ (elem b s && elem b t)
  unfolding inter
  elem-inter b [] t = refl
  elem-inter b (x ∷ s) t = ground (arith, ==_iff x b, elem-inter b s t)
