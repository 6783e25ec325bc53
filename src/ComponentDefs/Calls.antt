-- ===== src/ComponentDefs/Calls.antt =====
-- Components are applied behind the components that they use.
use kubecrtutils.Prelude.{
  ℕ, ◌≡◌, refl, ap, sym, ◌∙◌, subst, Bool, true, false, [], ◌∷◌, ◌++◌, Option, none, some,
  if◌then◌else◌, ◌==◌, elem, elem-append, arith, ==_iff, Bool-cases, Option-cases, inl, inr, ◌⊎◌,
}
use kubecrtutils.Prelude.Text.{Text, text_eq}
use kubecrtutils.Maps.{lookup}
use kubecrtutils.Constraints.Context.{Names}
use kubecrtutils.Topo.{topo_sort, done, cycle, out_of_fuel, Outcome}
use kubecrtutils.Topo.Order.{topo_sort_order, IsOrdered, AllIn, Named}
use kubecrtutils.ComponentDefs.{
  Definition, Definitions, Elements, Node, node, edges, deps, is_used, apply, sorted, cyclic,
  panics, all_known, sort_outcome, sort_elements,
}

-- a component is used
unfoldable pub in_use : Definitions → Text → Bool
in_use d n = elim (lookup n d.elements) [ none ↦ false | some c ↦ (is_used d.cctx d.required c).0 ]

-- what a component uses
unfoldable pub uses : Definitions → Text → Text → Bool
uses d n k = elim (lookup n d.elements) [ none ↦ false | some c ↦ elem k c.components ]

-- in a list of calls, behind those in `before`, each used component that another one uses comes first
abbrev pub InOrder : Definitions → Names → Names → Type 0
InOrder d before [] = Unit
InOrder d before (n ∷ calls) =
    ((k : Text) → uses d n k ≡ true → in_use d k ≡ true → elem k before ≡ true)
    × InOrder d (before ++ n ∷ []) calls

Named-edges : (elements : Elements) (ks : Names) → Named (node elements) (edges elements ks)
unfolding edges
Named-edges elements [] = tt
Named-edges elements (k ∷ ks) = (refl, Named-edges elements ks)

Named-deps : (elements : Elements) (v : Node) → Named (node elements) (deps elements v)
unfolding deps
Named-deps elements (n, none) = Named-edges elements (n ∷ [])
Named-deps elements (n, some c) = Named-edges elements c.components

AllIn-edges :
    (elements : Elements) (ks seen : Names) (k : Text)
    → AllIn (edges elements ks) seen
    → elem k ks ≡ true
    → elem k seen ≡ true
unfolding edges
AllIn-edges elements [] seen k all member = absurd (ground (arith, member))
AllIn-edges elements (j ∷ ks) seen k (this, rest) member = elim (Bool-cases (j == k)) [
  | inl same ↦ subst (λ x. elem x seen ≡ true) ((==_iff j k).0 same) this
  | inr other ↦ AllIn-edges elements ks seen k rest (ground (arith, member, other))
]

module _ (d : Definitions) (apply_one : Text → Option Text) where
  -- the dependencies of a known component stand before it
  used_before :
      (n k : Text) (c : Definition) (seen : Names)
      → lookup n d.elements ≡ some c
      → AllIn (deps d.elements (node d.elements n)) seen
      → uses d n k ≡ true
      → elem k seen ≡ true
  unfolding uses node deps
  used_before n k c seen found all h =
      AllIn-edges d.elements c.components seen k
        (subst (λ o. AllIn (deps d.elements (n, o)) seen) found all)
        (ap (λ o. elim o [ none ↦ false | some c ↦ elem k c.components ]) (sym found) ∙ h)

  in_use-none : (n : Text) → lookup n d.elements ≡ none → in_use d n ≡ false
  unfolding in_use
  in_use-none n nothing = rw (in_use, nothing) refl

  in_use-some :
      (n : Text) (c : Definition)
      → lookup n d.elements ≡ some c
      → in_use d n ≡ (is_used d.cctx d.required c).0
  unfolding in_use
  in_use-some n c found = rw (in_use, found) refl

  -- a component that is not used is passed over
  pass_over :
      (n : Text) (seen before : Names)
      → in_use d n ≡ false
      → ((k : Text) → elem k seen ≡ true → in_use d k ≡ true → elem k before ≡ true)
      → (k : Text) → elem k (seen ++ n ∷ []) ≡ true
      → in_use d k ≡ true
      → elem k before ≡ true
  pass_over n seen before unused h k member is = elim (Bool-cases (n == k)) [
    | inl same ↦ absurd (ground (arith, ap (in_use d) ((==_iff n k).0 same), is, unused))
    | inr other ↦ h k (ground (arith, elem-append k seen (n ∷ []), member, other)) is
  ]

  loop-InOrder :
      (o seen before : Names)
      → IsOrdered (deps d.elements) (node d.elements) seen o
      → ((k : Text) → elem k seen ≡ true → in_use d k ≡ true → elem k before ≡ true)
      → InOrder d before (apply d apply_one o).0
  unfolding apply
  loop-InOrder [] seen before ordered h = tt
  loop-InOrder (n ∷ o) seen before (new, all, ordered) h =
      elim (Option-cases (lookup n d.elements)) [
        | inl nothing ↦
            rw (apply, nothing)
              (loop-InOrder o (seen ++ n ∷ []) before ordered
                (pass_over n seen before (in_use-none n nothing) h))
        | inr (c, found) ↦ elim (Bool-cases (is_used d.cctx d.required c).0) [
          | inr unused ↦
              rw (apply, found, unused)
                (loop-InOrder o (seen ++ n ∷ []) before ordered
                  (pass_over n seen before (in_use-some n c found ∙ unused) h))
          | inl is ↦
              let first = λ (k : Text) (u : uses d n k ≡ true) (i : in_use d k ≡ true).
                h k (used_before n k c seen found all u) i in
              let rest = loop-InOrder o (seen ++ n ∷ []) (before ++ n ∷ []) ordered (λ k member is.
                elim (Bool-cases (n == k)) [
                  | inl same ↦ ground (arith, elem-append k before (n ∷ []), same)
                  | inr other ↦ ground (
                    arith,
                    elem-append k before (n ∷ []),
                    h k (ground (arith, elem-append k seen (n ∷ []), member, other)) is,
                  )
                ]) in
              elim (Option-cases (apply_one n)) [
                | inl ok ↦ rw (apply, found, is, ok) (first, rest)
                | inr (e, failed) ↦ rw (apply, found, is, failed) (first, tt)
              ]
        ]
      ]

  apply-skip :
      (m : Text) (o : Names) → in_use d m ≡ false → apply d apply_one (m ∷ o) ≡ apply d apply_one o
  unfolding apply
  apply-skip m o unused = elim (Option-cases (lookup m d.elements)) [
    | inl nothing ↦ rw (apply, nothing) refl
    | inr (c, found) ↦ rw (apply, found, sym (in_use-some m c found) ∙ unused) refl
  ]

  -- one that is used is applied, and ends the loop if it fails
  apply-call :
      (m : Text) (o : Names)
      → in_use d m ≡ true
      → ((apply_one m ≡ none)
          × (apply d apply_one (m ∷ o) ≡ (m ∷ (apply d apply_one o).0, (apply d apply_one o).1)))
        ⊎ ((e : Text) × (apply d apply_one (m ∷ o) ≡ (m ∷ [], some e)))
  unfolding apply
  apply-call m o is = elim (Option-cases (lookup m d.elements)) [
    | inl nothing ↦ absurd (ground (arith, is, in_use-none m nothing))
    | inr (c, found) ↦ elim (Option-cases (apply_one m)) [
      | inl ok ↦ inl (ok, rw (apply, found, sym (in_use-some m c found) ∙ is, ok) refl)
      | inr (e, failed) ↦ inr (e, rw (apply, found, sym (in_use-some m c found) ∙ is, failed) refl)
    ]
  ]

  -- without an error every used component of the order is applied
  elem-apply :
      (n : Text) (o : Names)
      → (apply d apply_one o).1 ≡ none
      → elem n o ≡ true
      → in_use d n ≡ true
      → elem n (apply d apply_one o).0 ≡ true
  elem-apply n [] ok member is = absurd (ground (arith, member))
  elem-apply n (m ∷ o) ok member is = elim (Bool-cases (in_use d m)) [
    | inr unused ↦
        let same = apply-skip m o unused in
        ap (λ r. elem n r.0) same
        ∙ elem-apply n o (ap (λ r. r.1) (sym same) ∙ ok)
            (elim (Bool-cases (m == n)) [
              | inl this ↦ absurd (ground (arith, ap (in_use d) ((==_iff m n).0 this), is, unused))
              | inr other ↦ ground (arith, member, other)
            ])
            is
    | inl call ↦ elim (apply-call m o call) [
      | inr (e, failed) ↦ absurd (cc (ap (λ r. r.1) (sym failed) ∙ ok))
      | inl (fine, called) ↦ ap (λ r. elem n r.0) called ∙ elim (Bool-cases (m == n)) [
        | inl this ↦ ground (arith, this)
        | inr other ↦ ground (
          arith,
          elem-apply n o (ap (λ r. r.1) (sym called) ∙ ok) (ground (arith, member, other)) is,
        )
      ]
    ]
  ]

sort_outcome-sorted :
    (elements : Elements) (r : Outcome Text) (o : Names)
    → sort_outcome elements r ≡ sorted o
    → r ≡ done o
unfolding sort_outcome
sort_outcome-sorted elements (done p) o h = let same : p ≡ o = cc h in ap done same
sort_outcome-sorted elements (cycle c) o h = elim (Bool-cases (all_known elements c)) [
  | inl known ↦ absurd (cc (ap (λ b. if b then cyclic c else panics) (sym known) ∙ h))
  | inr unknown ↦ absurd (cc (ap (λ b. if b then cyclic c else panics) (sym unknown) ∙ h))
]
sort_outcome-sorted elements out_of_fuel o h = absurd (cc h)

-- When `Validate` has found an order, `Apply` calls each used component behind all the used components that
-- it uses, also when it stops at an error; without an error it calls every used component that is listed.
pub apply-InOrder :
    (d : Definitions) (apply_one : Text → Option Text) (fuel : ℕ) (names o : Names)
    → sort_elements fuel d.elements names ≡ sorted o
    → InOrder d [] (apply d apply_one o).0
      × ((apply d apply_one o).1 ≡ none
          → (n : Text) → elem n names ≡ true
          → in_use d n ≡ true
          → elem n (apply d apply_one o).0 ≡ true)
unfolding sort_elements
apply-InOrder d apply_one fuel names o h =
    let found =
      sort_outcome-sorted d.elements (topo_sort (deps d.elements) fuel (edges d.elements names)) o
        h in
    let (all, ordered) =
      topo_sort_order (deps d.elements) (node d.elements) fuel (edges d.elements names) o
        (Named-edges d.elements names) (λ i. Named-deps d.elements (node d.elements i)) found in
    (
      loop-InOrder d apply_one o [] [] ordered (λ k member is. member),
      λ ok n member is.
          elem-apply d apply_one n o ok (AllIn-edges d.elements names o n all member) is,
    )
