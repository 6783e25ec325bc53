-- ===== src/Maps/Count.antt =====
-- Counting what a test does not hold for, to bound loops that add to a set.
use kubecrtutils.Prelude.{
  ℕ, suc, ◌+◌, ◌≤◌, ◌≡◌, Bool, true, false, List, [], ◌∷◌, length, elem, if◌then◌else◌, Eq, ◌==◌,
  ==_iff, Bool-cases, inl, inr, ap, arith,
}

module _ {A : Type 0} ⦃e : Eq A⦄ where
  -- the elements that a test does not hold for
  unfoldable pub count : (A → Bool) → List A → ℕ
  count p [] = 0
  count p (u ∷ us) = (if p u then 0 else 1) + count p us

  pub count-le : (p : A → Bool) (us : List A) → count p us ≤ length us
  unfolding count
  count-le p [] = omega arith
  count-le p (u ∷ us) = ground (arith, count-le p us)

  -- a test that holds for more leaves fewer elements
  pub count_mono :
      (p q : A → Bool) (us : List A) → ((u : A) → p u ≡ true → q u ≡ true) → count q us ≤ count p us
  unfolding count
  count_mono p q [] h = omega arith
  count_mono p q (u ∷ us) h = ground (arith, count_mono p q us h, h u)

  -- and even fewer if one element is new
  pub count-drop :
      (p q : A → Bool) (k : A) (us : List A)
      → ((u : A) → p u ≡ true → q u ≡ true)
      → p k ≡ false
      → q k ≡ true
      → elem k us ≡ true
      → suc (count q us) ≤ count p us
  unfolding count
  count-drop p q k [] h before after is_in = ground arith
  count-drop p q k (u ∷ us) h before after is_in = elim (Bool-cases (u == k)) [
    | inl same ↦ ground (
      arith,
      count_mono p q us h,
      before,
      after,
      ap p ((==_iff u k).0 same),
      ap q ((==_iff u k).0 same),
    )
    | inr other ↦ ground (arith, count-drop p q k us h before after, h u)
  ]
