-- ===== src/Topo/Tests.antt =====
-- Tests of the topological sort, and the instances of its theorems.
use kubecrtutils.Prelude.{
  ℕ, ◌≡◌, refl, List, [], ◌∷◌, ◌++◌, elem, nat_eq, arith, ◌⊎◌, ◌==◌, if◌then◌else◌, true,
}
use kubecrtutils.Topo.{done, cycle, index, each, close, order, topo_sort}
use kubecrtutils.Topo.Order.{Named, AllIn, IsOrdered, topo_sort_order}
use kubecrtutils.Topo.Cycle.{Chain, IsCycle, topo_sort_cycle}
use kubecrtutils.Topo.Ends.{Within, topo_sort_decides}

abbrev same : ℕ → ℕ
same i = i

abbrev both : List ℕ → List (ℕ × ℕ)
both [] = []
both (x ∷ xs) = (x, x) ∷ both xs

both-Named : (l : List ℕ) → Named same (both l)
both-Named [] = tt
both-Named (x ∷ l) = (refl, both-Named l)

-- 3 depends on 1 and 2, and 2 on 1
abbrev diamond : ℕ → List (ℕ × ℕ)
diamond i = both (if i == 3 then 1 ∷ 2 ∷ [] else if i == 2 then 1 ∷ [] else [])

diamond-Named : (i : ℕ) → Named same (diamond i)
diamond-Named i = both-Named (if i == 3 then 1 ∷ 2 ∷ [] else if i == 2 then 1 ∷ [] else [])

-- 1 depends on 2, and 2 on 1
abbrev loop : ℕ → List (ℕ × ℕ)
loop i = both (if i == 1 then 2 ∷ [] else 1 ∷ [])

loop-Named : (i : ℕ) → Named same (loop i)
loop-Named i = both-Named (if i == 1 then 2 ∷ [] else 1 ∷ [])

diamond-Within : (i : ℕ) → Within diamond same (1 ∷ 2 ∷ 3 ∷ []) (diamond i)
diamond-Within i k h = ground arith

diamond_sorted : topo_sort diamond 4 ((3, 3) ∷ []) ≡ done (1 ∷ 2 ∷ 3 ∷ [])
unfolding topo_sort order each close index
diamond_sorted = refl

loop_found : topo_sort loop 3 ((1, 1) ∷ []) ≡ cycle (1 ∷ 2 ∷ 1 ∷ [])
unfolding topo_sort order each close index
loop_found = refl

topo_sort_order_example :
    AllIn {I = ℕ} {E = ℕ} ((3, 3) ∷ []) (1 ∷ 2 ∷ 3 ∷ [])
    × IsOrdered {I = ℕ} {E = ℕ} diamond same [] (1 ∷ 2 ∷ 3 ∷ [])
topo_sort_order_example =
    topo_sort_order diamond same 4 ((3, 3) ∷ []) (1 ∷ 2 ∷ 3 ∷ []) (refl, tt) diamond-Named
      diamond_sorted

topo_sort_cycle_example : IsCycle loop same (1 ∷ 2 ∷ 1 ∷ [])
topo_sort_cycle_example =
    topo_sort_cycle loop same 3 ((1, 1) ∷ []) (1 ∷ 2 ∷ 1 ∷ []) (refl, tt) loop-Named loop_found

topo_sort_decides_example :
    ((o : List ℕ) × (topo_sort diamond 4 ((3, 3) ∷ []) ≡ done o)
      × ((i : ℕ) (mid : List ℕ) → elem i o ≡ true → Chain diamond same (i ∷ (mid ++ i ∷ [])) → ⊥))
    ⊎ ((c : List ℕ) × (topo_sort diamond 4 ((3, 3) ∷ []) ≡ cycle c) × IsCycle diamond same c)
topo_sort_decides_example =
    topo_sort_decides diamond same (1 ∷ 2 ∷ 3 ∷ []) ((3, 3) ∷ []) (refl, tt) diamond-Named
      (λ k h. ground arith) diamond-Within
