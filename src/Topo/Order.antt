-- ===== src/Topo/Order.antt =====
-- An order that `TopoSort` returns is topological and complete.
use kubecrtutils.Prelude.{
  ℕ, zero, suc, ◌≡◌, refl, sym, true, false, List, [], ◌∷◌, ◌++◌, append_assoc, append-nil, none,
  ◌⊎◌, inl, inr, elem, elem-append, Eq, ==_iff, All, arith, Bool-cases, Option-cases, subst, ◌∙◌,
}
use kubecrtutils.Topo.{Outcome, done, cycle, out_of_fuel, index, each, close, order, topo_sort}

pub index-none :
    {I : Type 0} ⦃e : Eq I⦄ (xs : List I) (i : I) → index xs i ≡ none → elem i xs ≡ false
unfolding index
index-none [] i h = refl
index-none (x ∷ xs) i h = ground (arith, index-none xs i)

pub Outcome-cases {ℓ} :
    {I : Type ℓ} (r : Outcome I)
    → ((o : List I) × (r ≡ done o)) ⊎ (((c : List I) × (r ≡ cycle c)) ⊎ (r ≡ out_of_fuel))
Outcome-cases (done o) = inl (o, refl)
Outcome-cases (cycle c) = inr (inl (c, refl))
Outcome-cases out_of_fuel = inr (inr refl)

-- the identity of each pair determines its element
abbrev pub Named : {I E : Type 0} → (I → E) → List (I × E) → Type 0
Named node l = All (λ kv. kv.1 ≡ node kv.0) l

-- the identities of all pairs stand in `o`
abbrev pub AllIn : {I E : Type 0} ⦃e : Eq I⦄ → List (I × E) → List I → Type 0
AllIn l o = All (λ kv. elem kv.0 o ≡ true) l

module _ {I E : Type 0} ⦃e : Eq I⦄ (d : E → List (I × E)) where
  module _ (node : I → E) where
    -- In `o`, read behind `seen`: nothing is repeated, and the dependencies of each stand before it.
    abbrev pub IsOrdered : List I → List I → Type 0
    IsOrdered seen [] = Unit
    IsOrdered seen (i ∷ o) =
        (elem i seen ≡ false) × AllIn (d (node i)) seen × IsOrdered (seen ++ i ∷ []) o

    IsOrdered-snoc :
        (o seen : List I) (i : I)
        → IsOrdered seen o
        → elem i (seen ++ o) ≡ false
        → AllIn (d (node i)) (seen ++ o)
        → IsOrdered seen (o ++ i ∷ [])
    IsOrdered-snoc [] seen i h new deps =
        (rw (append-nil seen) at new, rw (append-nil seen) at deps, tt)
    IsOrdered-snoc (x ∷ o) seen i (a, b, h) new deps =
        (a, b, IsOrdered-snoc o (seen ++ x ∷ []) i h (rw append_assoc new) (rw append_assoc deps))

    AllIn-mono :
        (l : List (I × E)) (o o' : List I)
        → ((x : I) → elem x o ≡ true → elem x o' ≡ true)
        → AllIn l o
        → AllIn l o'
    AllIn-mono [] o o' sub h = tt
    AllIn-mono (kv ∷ l) o o' sub (h, hs) = (sub kv.0 h, AllIn-mono l o o' sub hs)

    -- what a run from `o` to `o'` under `history` has done for the pairs in `l`
    record Run (history : List I) (l : List (I × E)) (o o' : List I) : Type 0 where
      keeps : (x : I) → elem x o ≡ true → elem x o' ≡ true
      avoids : (x : I) → elem x history ≡ true → elem x o' ≡ elem x o
      adds : AllIn l o'
      ordered : IsOrdered [] o → IsOrdered [] o'

    Run-nil : (history : List I) (o : List I) → Run history [] o o
    Run-nil history o = record {
      keeps = λ x h. h;
      avoids = λ x h. refl;
      adds = tt;
      ordered = λ h. h;
    }

    Run-cons :
        (history : List I) (k : I) (v : E) (l : List (I × E)) (o p q : List I)
        → Run history ((k, v) ∷ []) o p
        → Run history l p q
        → Run history ((k, v) ∷ l) o q
    Run-cons history k v l o p q a b = record {
      keeps = λ x h. b.keeps x (a.keeps x h);
      avoids = λ x h. b.avoids x h ∙ a.avoids x h;
      adds = (b.keeps k a.adds.0, b.adds);
      ordered = λ h. b.ordered (a.ordered h);
    }

    Run-known :
        (history : List I) (i : I) (v : E) (o : List I)
        → elem i o ≡ true
        → Run history ((i, v) ∷ []) o o
    Run-known history i v o h = record {
      keeps = λ x k. k;
      avoids = λ x k. refl;
      adds = (h, tt);
      ordered = λ k. k;
    }

    -- the dependencies of `i` were visited with `i` on the history, and then `i` was appended
    Run-close :
        (history : List I) (i : I) (v : E) (o p : List I)
        → v ≡ node i
        → elem i history ≡ false
        → elem i o ≡ false
        → Run (history ++ i ∷ []) (d v) o p
        → Run history ((i, v) ∷ []) o (p ++ i ∷ [])
    Run-close history i v o p same fresh new r =
        let on_path : elem i (history ++ i ∷ []) ≡ true =
          ground (arith, elem-append i history (i ∷ []), ==_iff i i) in
        let not_yet : elem i p ≡ false = r.avoids i on_path ∙ new in
        record {
          keeps = λ x h. ground (arith, elem-append x p (i ∷ []), r.keeps x h);
          avoids = λ x h. ground (
            arith,
            elem-append x p (i ∷ []),
            r.avoids x,
            elem-append x history (i ∷ []),
            ==_iff i x,
          );
          adds = (ground (arith, elem-append i p (i ∷ []), ==_iff i i), tt);
          ordered = λ h.
              IsOrdered-snoc p [] i (r.ordered h) not_yet (subst (λ w. AllIn (d w) p) same r.adds);
        }

    module _ (named : (i : I) → Named node (d (node i))) where
      each-Run :
          (fuel : ℕ) (history : List I)
          → ((i : I) (v : E) (o o' : List I)
              → v ≡ node i
              → order d fuel history i v o ≡ done o'
              → Run history ((i, v) ∷ []) o o')
          → (l : List (I × E)) (o o' : List I) → Named node l
          → each (order d fuel history) l o ≡ done o'
          → Run history l o o'
      unfolding each
      each-Run fuel history ih [] o o' n h = subst (Run history [] o) (cc h) (Run-nil history o)
      each-Run fuel history ih ((k, v) ∷ l) o o' (same, n) h =
          elim (Outcome-cases (order d fuel history k v o)) [
            | inl (p, e) ↦
                Run-cons history k v l o p o' (ih k v o p same e)
                  (each-Run fuel history ih l p o' n (rw (e, each) at h))
            | inr (inl (c, e)) ↦ cc (rw (e, each) at h)
            | inr (inr e) ↦ cc (rw (e, each) at h)
          ]

      order-Run :
          (fuel : ℕ) (history : List I) (i : I) (v : E) (o o' : List I)
          → v ≡ node i
          → order d fuel history i v o ≡ done o'
          → Run history ((i, v) ∷ []) o o'
      unfolding order close
      order-Run zero history i v o o' same h = cc h
      order-Run (suc fuel) history i v o o' same h = elim (Option-cases (index history i)) [
        | inr (idx, e) ↦ cc (rw (e, order) at h)
        | inl e ↦ elim (Bool-cases (elem i o)) [
          | inl old ↦
              let is_o : o ≡ o' = ground arith in
              subst (Run history ((i, v) ∷ []) o) is_o (Run-known history i v o old)
          | inr new ↦ elim (Outcome-cases (each (order d fuel (history ++ i ∷ [])) (d v) o)) [
            | inl (p, r) ↦
                let is_p : p ++ i ∷ [] ≡ o' = ground arith in
                subst (Run history ((i, v) ∷ []) o) is_p (
                  Run-close history i v o p same (index-none history i e) new (
                    each-Run fuel (history ++ i ∷ []) (order-Run fuel (history ++ i ∷ [])) (d v) o p
                      (subst (λ w. Named node (d w)) (sym same) (named i)) r))
            | inr (inl (c, r)) ↦ absurd (ground arith)
            | inr (inr r) ↦ absurd (ground arith)
          ]
        ]
      ]

-- If `TopoSort` returns an order, it contains the identity of every listed element, repeats none,
-- and each identity in it stands behind all of its dependencies. (`node` gives the element of an
-- identity, in the list and among the dependencies.)
pub topo_sort_order :
    {I E : Type 0} ⦃e : Eq I⦄ (d : E → List (I × E)) (node : I → E) (fuel : ℕ) (seq : List (I × E))
    (o : List I)
    → Named node seq
    → ((i : I) → Named node (d (node i)))
    → topo_sort d fuel seq ≡ done o
    → AllIn seq o × IsOrdered d node [] o
unfolding topo_sort
topo_sort_order d node fuel seq o n named h =
    let r = each-Run d node named fuel [] (order-Run d node named fuel []) seq [] o n h in
    (r.adds, r.ordered tt)
