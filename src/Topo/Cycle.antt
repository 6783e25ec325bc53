-- ===== src/Topo/Cycle.antt =====
-- A cycle that `TopoSort` returns is a cycle of the graph.
use kubecrtutils.Prelude.{
  ℕ, zero, suc, ◌≡◌, sym, true, List, [], ◌∷◌, ◌++◌, append_assoc, some, inl, inr, drop, elem, Eq,
  ◌==◌, ==_iff, arith, Bool-cases, Option-cases, ap, subst, ◌∙◌,
}
use kubecrtutils.Topo.{cycle, index, each, close, order, topo_sort}
use kubecrtutils.Topo.Order.{Named, Outcome-cases}

index-some :
    {I : Type 0} ⦃e : Eq I⦄ (xs : List I) (i : I) (n : ℕ)
    → index xs i ≡ some n
    → (pre : List I) × (post : List I) × (xs ≡ pre ++ i ∷ post) × (drop n xs ≡ i ∷ post)
unfolding index
index-some [] i n h = cc h
index-some (x ∷ xs) i n h = elim (Bool-cases (x == i)) [
  | inl same ↦
      let first : n ≡ 0 = ground arith in
      let x_is : x ≡ i = (==_iff x i).0 same in ([], xs, ground arith, rw first (ground arith))
  | inr other ↦ elim (Option-cases (index xs i)) [
    | inl e ↦ absurd (ground arith)
    | inr (m, e) ↦
        let (pre, post, split, rest) = index-some xs i m e in
        let later : n ≡ suc m = ground arith in (x ∷ pre, post, ground arith, rw later rest)
  ]
]

-- the identities of the dependencies
abbrev pub names : {I E : Type 0} → List (I × E) → List I
names [] = []
names ((k, v) ∷ l) = k ∷ names l

module _ {I E : Type 0} ⦃e : Eq I⦄ (d : E → List (I × E)) (node : I → E) where
  abbrev pub Dep : I → I → Type 0
  Dep a b = elem b (names (d (node a))) ≡ true

  -- each identity of the list depends on the next one
  abbrev pub ChainFrom : I → List I → Type 0
  ChainFrom a [] = Unit
  ChainFrom a (b ∷ l) = Dep a b × ChainFrom b l

  abbrev pub Chain : List I → Type 0
  Chain [] = Unit
  Chain (a ∷ l) = ChainFrom a l

  -- a chain from an identity back to itself
  abbrev pub IsCycle : List I → Type 0
  IsCycle c = (i : I) × (mid : List I) × (c ≡ i ∷ (mid ++ i ∷ [])) × Chain c

  ChainFrom-snoc :
      (a : I) (l : List I) (i k : I)
      → ChainFrom a (l ++ i ∷ [])
      → Dep i k
      → ChainFrom a ((l ++ i ∷ []) ++ k ∷ [])
  ChainFrom-snoc a [] i k h dep = (h.0, (dep, tt))
  ChainFrom-snoc a (b ∷ l) i k h dep = (h.0, ChainFrom-snoc b l i k h.1 dep)

  Chain-snoc :
      (l : List I) (i k : I) → Chain (l ++ i ∷ []) → Dep i k → Chain ((l ++ i ∷ []) ++ k ∷ [])
  Chain-snoc [] i k h dep = (dep, tt)
  Chain-snoc (a ∷ l) i k h dep = ChainFrom-snoc a l i k h dep

  ChainFrom-suffix :
      (a : I) (pre : List I) (i : I) (post : List I)
      → ChainFrom a (pre ++ i ∷ post)
      → ChainFrom i post
  ChainFrom-suffix a [] i post h = h.1
  ChainFrom-suffix a (b ∷ pre) i post h = ChainFrom-suffix b pre i post h.1

  Chain-suffix : (pre : List I) (i : I) (post : List I) → Chain (pre ++ i ∷ post) → ChainFrom i post
  Chain-suffix [] i post h = h
  Chain-suffix (a ∷ pre) i post h = ChainFrom-suffix a pre i post h

  -- what the call returns when `i` is on the history
  IsCycle-found :
      (history : List I) (i : I) (idx : ℕ)
      → index history i ≡ some idx
      → Chain (history ++ i ∷ [])
      → IsCycle (drop idx history ++ i ∷ [])
  IsCycle-found history i idx found h =
      let (pre, post, split, rest) = index-some history i idx found in
      let shape : drop idx history ++ i ∷ [] ≡ i ∷ (post ++ i ∷ []) = rw rest in
      let whole : Chain (pre ++ i ∷ (post ++ i ∷ [])) =
        subst Chain (ap (λ (l : List I). l ++ i ∷ []) split ∙ append_assoc pre (i ∷ post) (i ∷ []))
          h in
      (i, post, shape, subst Chain (sym shape) (Chain-suffix pre i (post ++ i ∷ []) whole))

  module _ (named : (i : I) → Named node (d (node i))) where
    each_cycle :
        (fuel : ℕ) (history : List I)
        → ((i : I) (v : E) (o c : List I)
            → v ≡ node i
            → Chain (history ++ i ∷ [])
            → order d fuel history i v o ≡ cycle c
            → IsCycle c)
        → (l : List (I × E)) (o c : List I) → Named node l
        → ((k : I) → elem k (names l) ≡ true → Chain (history ++ k ∷ []))
        → each (order d fuel history) l o ≡ cycle c
        → IsCycle c
    unfolding each
    each_cycle fuel history ih [] o c n path h = cc h
    each_cycle fuel history ih ((k, v) ∷ l) o c (same, n) path h =
        elim (Outcome-cases (order d fuel history k v o)) [
          | inl (p, r) ↦
              each_cycle fuel history ih l p c n (λ x m. path x (ground arith)) (rw (r, each) at h)
          | inr (inl (c', r)) ↦
              ih k v o c same (path k (ground (arith, ==_iff k k))) (cc (r, rw (r, each) at h))
          | inr (inr r) ↦ cc (rw (r, each) at h)
        ]

    order_cycle :
        (fuel : ℕ) (history : List I) (i : I) (v : E) (o c : List I)
        → v ≡ node i
        → Chain (history ++ i ∷ [])
        → order d fuel history i v o ≡ cycle c
        → IsCycle c
    unfolding order close
    order_cycle zero history i v o c same path h = cc h
    order_cycle (suc fuel) history i v o c same path h = elim (Option-cases (index history i)) [
      | inr (idx, x) ↦
          let is_c : drop idx history ++ i ∷ [] ≡ c = ground arith in
          subst IsCycle is_c (IsCycle-found history i idx x path)
      | inl x ↦ elim (Bool-cases (elem i o)) [
        | inl old ↦ absurd (ground arith)
        | inr new ↦ elim (Outcome-cases (each (order d fuel (history ++ i ∷ [])) (d v) o)) [
          | inl (p, r) ↦ absurd (ground arith)
          | inr (inl (c', r)) ↦
              let is_c : c' ≡ c = ground arith in
              subst IsCycle is_c (
                each_cycle fuel (history ++ i ∷ []) (order_cycle fuel (history ++ i ∷ [])) (d v) o
                  c' (subst (λ w. Named node (d w)) (sym same) (named i))
                  (λ k m.
                    Chain-snoc history i k path (subst (λ w. elem k (names (d w)) ≡ true) same m))
                  r)
          | inr (inr r) ↦ absurd (ground arith)
        ]
      ]
    ]

-- If `TopoSort` returns a cycle, it starts and ends with the same identity, and each identity in
-- it depends on the next one. (`node` gives the element of an identity.)
pub topo_sort_cycle :
    {I E : Type 0} ⦃e : Eq I⦄ (d : E → List (I × E)) (node : I → E) (fuel : ℕ) (seq : List (I × E))
    (c : List I)
    → Named node seq
    → ((i : I) → Named node (d (node i)))
    → topo_sort d fuel seq ≡ cycle c
    → IsCycle d node c
unfolding topo_sort
topo_sort_cycle d node fuel seq c n named h =
    each_cycle d node named fuel [] (order_cycle d node named fuel []) seq [] c n (λ k m. tt) h
