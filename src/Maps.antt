-- ===== src/Maps.antt =====
-- Go maps with a comparable key as association lists, and Go sets as lists of their elements.
pub mod Sets
pub mod Count
use kubecrtutils.Prelude.{
  ◌≡◌, refl, Bool, true, false, ◌||◌, Option, none, some, List, [], ◌∷◌, map, arith, Eq, ◌==◌,
  ==_iff, if◌then◌else◌, ℕ, is_some, elem,
}

abbrev pub GoMap {ℓ κ} : Type ℓ → Type κ → Type (ℓ ⊔ κ)
GoMap K V = List (K × V)

module _ {ℓ κ} {K : Type ℓ} {V : Type κ} ⦃e : Eq K⦄ where
  -- `v, ok := m[k]`
  unfoldable pub lookup : K → GoMap K V → Option V
  lookup k [] = none
  lookup k ((j, v) ∷ m) = if j == k then some v else lookup k m

  -- `m[k] = v`
  unfoldable pub insert : K → V → GoMap K V → GoMap K V
  insert k v [] = (k, v) ∷ []
  insert k v ((j, w) ∷ m) = let rest = insert k v m in if j == k then (k, v) ∷ m else (j, w) ∷ rest

  -- `delete(m, k)`
  unfoldable pub delete : K → GoMap K V → GoMap K V
  delete k [] = []
  delete k ((j, w) ∷ m) = let rest = delete k m in if j == k then rest else (j, w) ∷ rest

  pub lookup-insert :
      (j k : K) (v : V) (m : GoMap K V)
      → lookup j (insert k v m) ≡ (if k == j then some v else lookup j m)
  unfolding lookup insert
  lookup-insert j k v [] = refl
  lookup-insert j k v ((i, w) ∷ m) =
      ground (arith, ==_iff k j, ==_iff i k, ==_iff i j, lookup-insert j k v m)

  pub lookup-delete :
      (j k : K) (m : GoMap K V) → lookup j (delete k m) ≡ (if k == j then none else lookup j m)
  unfolding lookup delete
  lookup-delete j k [] = ground arith
  lookup-delete j k ((i, w) ∷ m) =
      ground (arith, ==_iff k j, ==_iff i k, ==_iff i j, lookup-delete j k m)

-- The keys of a map in an iteration order.
abbrev pub keys {ℓ κ} : {K : Type ℓ} {V : Type κ} → GoMap K V → List K
keys [] = []
keys ((k, v) ∷ m) = k ∷ keys m

pub elem-keys {ℓ κ} :
    {K : Type ℓ} {V : Type κ} ⦃e : Eq K⦄ (k : K) (m : GoMap K V)
    → elem k (keys m) ≡ is_some (lookup k m)
unfolding lookup
elem-keys k [] = refl
elem-keys k ((j, v) ∷ m) = ground (arith, elem-keys k m)
