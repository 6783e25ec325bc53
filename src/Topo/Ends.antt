-- ===== src/Topo/Ends.antt =====
-- `TopoSort` ends on a finite graph, and it returns an order exactly if there is no cycle.
use kubecrtutils.Prelude.{
  ℕ, zero, suc, ◌≤◌, ◌<◌, ◌≡◌, ◌≢◌, sym, true, false, List, [], ◌∷◌, ◌++◌, append_assoc, append-nil,
  ◌⊎◌, inl, inr, elem, elem-append, length, Eq, ◌==◌, ==_iff, arith, Bool-cases, Option-cases, ap,
  subst, if◌then◌else◌,
}
use kubecrtutils.Topo.{done, cycle, out_of_fuel, index, each, close, order, topo_sort}
use kubecrtutils.Topo.Order.{Named, AllIn, IsOrdered, Outcome-cases, index-none, topo_sort_order}
use kubecrtutils.Topo.Cycle.{names, Dep, ChainFrom, Chain, IsCycle, topo_sort_cycle}

-- the nodes that are not on the history
off_path : {I : Type 0} ⦃e : Eq I⦄ → List I → List I → ℕ
off_path [] history = 0
off_path (x ∷ xs) history =
    let rest = off_path xs history in if elem x history then rest else suc rest

off_path-le-length : {I : Type 0} ⦃e : Eq I⦄ (xs history : List I) → off_path xs history ≤ length xs
unfolding off_path
off_path-le-length [] history = omega arith
off_path-le-length (x ∷ xs) history = ground (arith, off_path-le-length xs history)

off_path_mono :
    {I : Type 0} ⦃e : Eq I⦄ (xs history : List I) (i : I)
    → off_path xs (history ++ i ∷ []) ≤ off_path xs history
unfolding off_path
off_path_mono [] history i = omega arith
off_path_mono (x ∷ xs) history i =
    ground (arith, off_path_mono xs history i, elem-append x history (i ∷ []))

off_path-snoc :
    {I : Type 0} ⦃e : Eq I⦄ (xs history : List I) (i : I)
    → elem i xs ≡ true
    → elem i history ≡ false
    → off_path xs (history ++ i ∷ []) < off_path xs history
unfolding off_path
off_path-snoc [] history i h new = cc h
off_path-snoc (x ∷ xs) history i h new = ground (
  arith,
  off_path-snoc xs history i,
  off_path_mono xs history i,
  elem-append x history (i ∷ []),
  ==_iff x i,
  ==_iff i x,
)

module _ {I E : Type 0} ⦃e : Eq I⦄ (d : E → List (I × E)) (node : I → E) (nodes : List I) where
  abbrev pub Within : List (I × E) → Type 0
  Within l = (k : I) → elem k (names l) ≡ true → elem k nodes ≡ true

  module _ (named : (i : I) → Named node (d (node i)))
      (within : (i : I) → Within (d (node i))) where
    each_ends :
        (fuel : ℕ) (history : List I)
        → ((i : I) (v : E) (o : List I)
            → v ≡ node i
            → elem i nodes ≡ true
            → order d fuel history i v o ≢ out_of_fuel)
        → (l : List (I × E)) (o : List I) → Named node l
        → Within l
        → each (order d fuel history) l o ≢ out_of_fuel
    unfolding each
    each_ends fuel history ih [] o n w h = cc h
    each_ends fuel history ih ((k, v) ∷ l) o (same, n) w h =
        elim (Outcome-cases (order d fuel history k v o)) [
          | inl (p, r) ↦
              each_ends fuel history ih l p n (λ x m. w x (ground arith)) (rw (r, each) at h)
          | inr (inl (c, r)) ↦ cc (rw (r, each) at h)
          | inr (inr r) ↦ ih k v o same (w k (ground (arith, ==_iff k k))) r
        ]

    order_ends :
        (fuel : ℕ) (history : List I) (i : I) (v : E) (o : List I)
        → off_path nodes history < fuel
        → v ≡ node i
        → elem i nodes ≡ true
        → order d fuel history i v o ≢ out_of_fuel
    unfolding order close
    order_ends zero history i v o less same known h = absurd (omega arith)
    order_ends (suc fuel) history i v o less same known h = elim (Option-cases (index history i)) [
      | inr (idx, x) ↦ cc (rw (x, order) at h)
      | inl x ↦ elim (Bool-cases (elem i o)) [
        | inl old ↦ absurd (ground arith)
        | inr new ↦
            let smaller = off_path-snoc nodes history i known (index-none history i x) in
            elim (Outcome-cases (each (order d fuel (history ++ i ∷ [])) (d v) o)) [
              | inl (p, r) ↦ absurd (ground arith)
              | inr (inl (c, r)) ↦ absurd (ground arith)
              | inr (inr r) ↦
                  each_ends fuel (history ++ i ∷ [])
                    (λ j w q is_w in_w.
                      order_ends fuel (history ++ i ∷ []) j w q (omega arith) is_w in_w)
                    (d v) o (subst (λ w. Named node (d w)) (sym same) (named i))
                    (subst (λ w. Within (d w)) (sym same) (within i)) r
            ]
      ]
    ]

  -- the place of an identity in a list
  pos : List I → I → ℕ
  pos [] a = 0
  pos (x ∷ xs) a = let later = suc (pos xs a) in if x == a then 0 else later

  pos-lt : (pre post : List I) (b : I) → elem b pre ≡ true → pos (pre ++ post) b < length pre
  unfolding pos
  pos-lt [] post b h = cc h
  pos-lt (x ∷ pre) post b h = ground (arith, pos-lt pre post b)

  pos_self : (pre post : List I) (a : I) → elem a pre ≡ false → pos (pre ++ a ∷ post) a ≡ length pre
  unfolding pos
  pos_self [] post a h = ground (arith, ==_iff a a)
  pos_self (x ∷ pre) post a h = ground (arith, pos_self pre post a)

  AllIn-names :
      (l : List (I × E)) (o : List I) (b : I)
      → AllIn l o
      → elem b (names l) ≡ true
      → elem b o ≡ true
  AllIn-names [] o b h m = cc m
  AllIn-names ((k, v) ∷ l) o b (h, hs) m = ground (arith, AllIn-names l o b hs, ==_iff k b)

  ordered_split :
      (o seen : List I) (a : I)
      → IsOrdered d node seen o
      → elem a o ≡ true
      → (pre : List I) × (post : List I) × (o ≡ pre ++ a ∷ post)
        × (elem a (seen ++ pre) ≡ false)
        × AllIn (d (node a)) (seen ++ pre)
  ordered_split [] seen a h m = cc m
  ordered_split (x ∷ o) seen a (new, deps, h) m = elim (Bool-cases (x == a)) [
    | inl same ↦
        let is_a : x ≡ a = (==_iff x a).0 same in
        (
          [],
          o,
          rw is_a,
          rw (append-nil seen) (subst (λ z. elem z seen ≡ false) is_a new),
          rw (append-nil seen) (subst (λ z. AllIn (d (node z)) seen) is_a deps),
        )
    | inr other ↦
        let (pre, post, split, fresh, all_in) =
          ordered_split o (seen ++ x ∷ []) a h (ground arith) in
        (
          x ∷ pre,
          post,
          ap (λ (l : List I). x ∷ l) split,
          rw append_assoc at fresh,
          rw append_assoc at all_in,
        )
  ]

  -- in a topological order a dependency stands before
  pos-Dep :
      (o : List I) (a b : I)
      → IsOrdered d node [] o
      → elem a o ≡ true
      → Dep d node a b
      → (elem b o ≡ true) × (pos o b < pos o a)
  pos-Dep o a b h m dep =
      let (pre, post, split, fresh, all_in) = ordered_split o [] a h m in
      let in_pre = AllIn-names (d (node a)) pre b all_in dep in
      (
        ground (arith, elem-append b pre (a ∷ post)),
        rw split (omega (arith, pos-lt pre (a ∷ post) b in_pre, pos_self pre post a fresh)),
      )

  pos_chain :
      (o : List I) (a : I) (l : List I) (b : I)
      → IsOrdered d node [] o
      → elem a o ≡ true
      → ChainFrom d node a (l ++ b ∷ [])
      → pos o b < pos o a
  pos_chain o a [] b h m c = (pos-Dep o a b h m c.0).1
  pos_chain o a (x ∷ l) b h m c =
      let (in_o, before) = pos-Dep o a x h m c.0 in omega (arith, pos_chain o x l b h in_o c.1)

-- On a finite graph, whose nodes are `nodes`, a recursion as deep as there are nodes is enough:
-- `TopoSort` returns a cycle, or an order in which no identity lies on a cycle.
pub topo_sort_decides :
    {I E : Type 0} ⦃e : Eq I⦄ (d : E → List (I × E)) (node : I → E) (nodes : List I)
    (seq : List (I × E))
    → Named node seq
    → ((i : I) → Named node (d (node i)))
    → Within d node nodes seq
    → ((i : I) → Within d node nodes (d (node i)))
    → ((o : List I) × (topo_sort d (suc (length nodes)) seq ≡ done o)
        × ((i : I) (mid : List I) → elem i o ≡ true → Chain d node (i ∷ (mid ++ i ∷ [])) → ⊥))
      ⊎ ((c : List I) × (topo_sort d (suc (length nodes)) seq ≡ cycle c) × IsCycle d node c)
topo_sort_decides d node nodes seq n named w within =
    elim (Outcome-cases (topo_sort d (suc (length nodes)) seq)) [
      | inl (o, r) ↦
          let (all_in, ordered) = topo_sort_order d node (suc (length nodes)) seq o n named r in
          inl (
            o,
            r,
            λ i mid m c. absurd (omega (arith, pos_chain d node nodes o i mid i ordered m c)),
          )
      | inr (inl (c, r)) ↦ inr (c, r, topo_sort_cycle d node (suc (length nodes)) seq c n named r)
      | inr (inr r) ↦ absurd (
          each_ends d node nodes named within (suc (length nodes)) []
            (λ i v o same known.
              order_ends d node nodes named within (suc (length nodes)) [] i v o
                (omega (arith, off_path-le-length nodes [])) same known)
            seq [] n w (unfold topo_sort in r))
    ]
