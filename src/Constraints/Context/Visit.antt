-- ===== src/Constraints/Context/Visit.antt =====
-- What one call of `Closure` does to the two sets.
use kubecrtutils.Prelude.{
  ℕ, zero, suc, ◌≡◌, sym, true, false, [], ◌∷◌, some, ◌⊎◌, inl, inr, ⊎_elim, elem, arith,
  Bool-cases, List-cases, Option-cases, ==_iff, subst, ◌∙◌,
}
use kubecrtutils.Prelude.Text.{Text, text_eq}
use kubecrtutils.Maps.Sets.{add, elem-add}
use kubecrtutils.Constraints.Context.{Names, Groups, Progress, members, each, closure}

abbrev pub In : Text → Names → Type 0
In a s = elem a s ≡ true

pub In-add_self : (a : Text) (s : Names) → In a (add a s)
In-add_self a s = ground (arith, elem-add a a s, ==_iff a a)

pub In-add : (b a : Text) (s : Names) → In b s → In b (add a s)
In-add b a s h = ground (arith, elem-add b a s)

pub In-add_cases : (b a : Text) (s : Names) → In b (add a s) → (a ≡ b) ⊎ In b s
In-add_cases b a s h = ground (arith, elem-add b a s, ==_iff a b)

module _ (groups : Groups) where
  abbrev pub marked : Text → Progress → Progress
  marked n p = record p { handled = add n p.handled }

  abbrev pub leaf : Text → Progress → Progress
  leaf n p = record { result = add n p.result; handled = add n p.handled }

  pub closure_handled :
      (fuel : ℕ) (n : Text) (p : Progress) → In n p.handled → closure (suc fuel) groups n p ≡ some p
  unfolding closure
  closure_handled fuel n p h = rw (h, closure)

  pub closure-leaf :
      (fuel : ℕ) (n : Text) (p : Progress)
      → elem n p.handled ≡ false
      → members groups n ≡ []
      → closure (suc fuel) groups n p ≡ some (leaf n p)
  unfolding closure
  closure-leaf fuel n p h e = ground arith

  pub closure_node :
      (fuel : ℕ) (n : Text) (p : Progress) (m : Text) (ms : Names)
      → elem n p.handled ≡ false
      → members groups n ≡ m ∷ ms
      → closure (suc fuel) groups n p ≡ each (closure fuel groups) (members groups n) (marked n p)
  unfolding closure
  closure_node fuel n p m ms h e = ground arith

  -- The step from `p` to `p'` that a visit of the names in `ns` makes.
  pub record Visits (ns : Names) (p p' : Progress) : Type 0 where
    pub keeps_handled : (x : Text) → In x p.handled → In x p'.handled
    pub keeps_result : (x : Text) → In x p.result → In x p'.result
    pub reached : (x : Text) → In x ns → In x p'.handled
    pub closed :
        (x : Text)
        → In x p'.handled
        → In x p.handled
          ⊎ (((y : Text) → In y (members groups x) → In y p'.handled)
              × (members groups x ≡ [] → In x p'.result))

  Visits-nil : (p : Progress) → Visits [] p p
  Visits-nil p = record {
    keeps_handled = λ x h. h;
    keeps_result = λ x h. h;
    reached = λ x h. cc;
    closed = λ x h. inl h;
  }

  Visits-cons :
      (n : Text) (ns : Names) (p q r : Progress)
      → Visits (n ∷ []) p q
      → Visits ns q r
      → Visits (n ∷ ns) p r
  Visits-cons n ns p q r a b = record {
    keeps_handled = λ x h. b.keeps_handled x (a.keeps_handled x h);
    keeps_result = λ x h. b.keeps_result x (a.keeps_result x h);
    reached = λ x h. ground (arith, a.reached x, b.keeps_handled x, b.reached x);
    closed = λ x h.
        ⊎_elim
          (λ old.
            ⊎_elim inl
              (λ new. inr (λ y m. b.keeps_handled y (new.0 y m), λ e. b.keeps_result x (new.1 e)))
              (a.closed x old))
          inr (b.closed x h);
  }

  In-singleton : (x n : Text) → In x (n ∷ []) → n ≡ x
  In-singleton x n h = ground (arith, ==_iff n x)

  Visits-handled : (n : Text) (p : Progress) → In n p.handled → Visits (n ∷ []) p p
  Visits-handled n p old = record {
    keeps_handled = λ x h. h;
    keeps_result = λ x h. h;
    reached = λ x h. subst (λ z. In z p.handled) (In-singleton x n h) old;
    closed = λ x h. inl h;
  }

  Visits-leaf : (n : Text) (p : Progress) → members groups n ≡ [] → Visits (n ∷ []) p (leaf n p)
  Visits-leaf n p e = record {
    keeps_handled = λ x h. In-add x n p.handled h;
    keeps_result = λ x h. In-add x n p.result h;
    reached =
        λ x h. subst (λ z. In z (add n p.handled)) (In-singleton x n h) (In-add_self n p.handled);
    closed = λ x h.
        ⊎_elim
          (λ same. inr (
            λ y m. cc (e, same),
            λ _. subst (λ z. In z (add n p.result)) same (In-add_self n p.result),
          ))
          inl (In-add_cases x n p.handled h);
  }

  Visits-marked :
      (n : Text) (p q : Progress) (m : Text) (ms : Names)
      → members groups n ≡ m ∷ ms
      → Visits (members groups n) (marked n p) q
      → Visits (n ∷ []) p q
  Visits-marked n p q m ms e v = record {
    keeps_handled = λ x h. v.keeps_handled x (In-add x n p.handled h);
    keeps_result = v.keeps_result;
    reached = λ x h.
        subst (λ z. In z q.handled) (In-singleton x n h)
          (v.keeps_handled n (In-add_self n p.handled));
    closed = λ x h.
        ⊎_elim
          (λ old.
            ⊎_elim
              (λ same. inr (
                λ y k. v.reached y (subst (λ z. In y (members groups z)) (sym same) k),
                λ none_left. cc (e, same, none_left),
              ))
              inl (In-add_cases x n p.handled old))
          inr (v.closed x h);
  }

  each-Visits :
      (fuel : ℕ)
      → ((n : Text) (p q : Progress) → closure fuel groups n p ≡ some q → Visits (n ∷ []) p q)
      → (ns : Names) (p q : Progress) → each (closure fuel groups) ns p ≡ some q
      → Visits ns p q
  unfolding each
  each-Visits fuel ih [] p q h = subst (Visits [] p) (cc h) (Visits-nil p)
  each-Visits fuel ih (n ∷ ns) p q h = elim (Option-cases (closure fuel groups n p)) [
    | inl e ↦ cc (rw (e, each) at h)
    | inr (r, e) ↦
        Visits-cons n ns p r q (ih n p r e) (each-Visits fuel ih ns r q (rw (e, each) at h))
  ]

  -- A call that returns has visited its name.
  pub closure-Visits :
      (fuel : ℕ) (n : Text) (p q : Progress)
      → closure fuel groups n p ≡ some q
      → Visits (n ∷ []) p q
  closure-Visits zero n p q h = unfold closure in cc
  closure-Visits (suc fuel) n p q h = elim (Bool-cases (elem n p.handled)) [
    | inl old ↦
        subst (Visits (n ∷ []) p) (cc (h, closure_handled fuel n p old)) (Visits-handled n p old)
    | inr new ↦ elim (List-cases (members groups n)) [
      | inl e ↦ subst (Visits (n ∷ []) p) (cc (h, closure-leaf fuel n p new e)) (Visits-leaf n p e)
      | inr (m, ms, e) ↦ Visits-marked n p q m ms e (
          each-Visits fuel (closure-Visits fuel) (members groups n) (marked n p) q
            (sym (closure_node fuel n p m ms new e) ∙ h))
    ]
  ]
