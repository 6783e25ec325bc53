-- ===== src/Topo.antt =====
-- utils/topo.go: the topological order of a dependency graph, or a cycle. `d` lists the
-- dependencies of an element with their identities. Go slices are lists; the appends to `history`
-- in sibling calls never show in the slice of the caller.
mod Tests
pub mod Order
pub mod Cycle
pub mod Ends
use kubecrtutils.Prelude.{
  ℕ, zero, suc, true, false, List, [], ◌∷◌, ◌++◌, Option, none, some, drop, elem, Eq, ◌==◌,
  if◌then◌else◌,
}
use mathlib.Core.Option

-- the order so far, a cycle, or a call that is not finished
pub data Outcome {ℓ} (I : Type ℓ) : Type ℓ where
  done : List I → Outcome I
  cycle : List I → Outcome I
  out_of_fuel : Outcome I

-- `slices.Index`; `none` is -1
unfoldable pub index {ℓ} : {I : Type ℓ} ⦃e : Eq I⦄ → List I → I → Option ℕ
index [] i = none
index (x ∷ xs) i = if x == i then some 0 else Option.map suc (index xs i)

-- the loop over the dependencies, and the one of `TopoSort`, over the call that their bodies make
unfoldable pub each {ℓ κ} :
    {I : Type ℓ} {E : Type κ} → (I → E → List I → Outcome I) → List (I × E) → List I → Outcome I
each visit [] o = done o
each visit ((k, v) ∷ rest) o = elim (visit k v o) [
  | done o' ↦ each visit rest o'
  | cycle c ↦ cycle c
  | out_of_fuel ↦ out_of_fuel
]

module _ {I E : Type 0} ⦃e : Eq I⦄ (d : E → List (I × E)) where
  -- `*o = append(*o, i)` behind the loop
  unfoldable pub close : I → Outcome I → Outcome I
  close i (done o) = done (o ++ i ∷ [])
  close i r = r

  -- `_order`
  unfoldable pub order : ℕ → List I → I → E → List I → Outcome I
  unfolding close each
  order zero history i v o = out_of_fuel
  order (suc fuel) history i v o = elim (index history i) [
    | some idx ↦ cycle (drop idx history ++ i ∷ [])
    | none ↦ elim (elem i o) [
      | true ↦ done o
      | false ↦ close i (each (order fuel (history ++ i ∷ [])) (d v) o)
    ]
  ]

  -- `TopoSort`
  unfoldable pub topo_sort : ℕ → List (I × E) → Outcome I
  topo_sort fuel seq = each (order fuel []) seq []
