-- ===== src/Constraints/Context/Reach.antt =====
-- The closure of a group is the set of the names without members that the group leads to.
use kubecrtutils.Prelude.{
  ℕ, zero, suc, ◌≡◌, sym, [], ◌∷◌, some, inl, inr, elem, arith, Bool-cases, List-cases,
  Option-cases, ==_iff, ◌∙◌, subst, ⊎_elim,
}
use kubecrtutils.Prelude.Text.{Text, text_eq}
use kubecrtutils.Constraints.Context.{Names, Groups, Progress, members, each, closure, closure_of}
use kubecrtutils.Constraints.Context.Visit.{
  In, In-add_cases, marked, leaf, closure_handled, closure-leaf, closure_node, closure-Visits,
}
use kubecrtutils.Constraints.Context.Fuel.{closure_of_total}

-- `x` is `name`, a member of it, a member of a member, and so on.
pub data Leads (groups : Groups) (name : Text) : Text → Type 0 where
  here : Leads groups name name
  step : {x y : Text} → Leads groups name x → In y (members groups x) → Leads groups name y

module _ (groups : Groups) (name : Text) where
  record Sound (p : Progress) : Type 0 where
    leads : (x : Text) → In x p.result → Leads groups name x
    empty : (x : Text) → In x p.result → members groups x ≡ []

  Sound-leaf :
      (n : Text) (p : Progress)
      → Leads groups name n
      → members groups n ≡ []
      → Sound p
      → Sound (leaf groups n p)
  Sound-leaf n p l e s = record {
    leads = λ x h.
        ⊎_elim (λ same. subst (Leads groups name) same l) (s.leads x) (In-add_cases x n p.result h);
    empty = λ x h.
        ⊎_elim (λ same. subst (λ z. members groups z ≡ []) same e) (s.empty x)
          (In-add_cases x n p.result h);
  }

  each-Sound :
      (fuel : ℕ)
      → ((n : Text) (p q : Progress)
          → Leads groups name n
          → Sound p
          → closure fuel groups n p ≡ some q
          → Sound q)
      → (ns : Names) (p q : Progress) → ((x : Text) → In x ns → Leads groups name x)
      → Sound p
      → each (closure fuel groups) ns p ≡ some q
      → Sound q
  unfolding each
  each-Sound fuel ih [] p q l s h = subst Sound (cc h) s
  each-Sound fuel ih (n ∷ ns) p q l s h = elim (Option-cases (closure fuel groups n p)) [
    | inl e ↦ cc (rw (e, each) at h)
    | inr (r, e) ↦
        each-Sound fuel ih ns r q (λ x k. l x (ground arith))
          (ih n p r (l n (ground (arith, ==_iff n n))) s e) (rw (e, each) at h)
  ]

  closure-Sound :
      (fuel : ℕ) (n : Text) (p q : Progress)
      → Leads groups name n
      → Sound p
      → closure fuel groups n p ≡ some q
      → Sound q
  closure-Sound zero n p q l s h = unfold closure in cc
  closure-Sound (suc fuel) n p q l s h = elim (Bool-cases (elem n p.handled)) [
    | inl old ↦ subst Sound (cc (h, closure_handled groups fuel n p old)) s
    | inr new ↦ elim (List-cases (members groups n)) [
      | inl e ↦ subst Sound (cc (h, closure-leaf groups fuel n p new e)) (Sound-leaf n p l e s)
      | inr (m, ms, e) ↦
          each-Sound fuel (closure-Sound fuel) (members groups n) (marked groups n p) q
            (λ x k. step l k) (record { leads = s.leads; empty = s.empty })
            (sym (closure_node groups fuel n p m ms new e) ∙ h)
    ]
  ]

  module _ (q : Progress) (h : closure_of groups name ≡ some q) where
    open_result :
        (x : Text)
        → In x q.handled
        → ((y : Text) → In y (members groups x) → In y q.handled)
          × (members groups x ≡ [] → In x q.result)
    unfolding closure_of
    open_result x k =
        ⊎_elim (λ none_left. cc none_left) (λ c. c)
          ((closure-Visits groups _ name _ q h).closed x k)

    handled_all : {x : Text} → Leads groups name x → In x q.handled
    unfolding closure_of
    handled_all here =
        (closure-Visits groups _ name _ q h).reached name (ground (arith, ==_iff name name))
    handled_all (step {x} {y} l m) = (open_result x (handled_all l)).0 y m

    closure-Sound_of : Sound q
    unfolding closure_of
    closure-Sound_of =
        closure-Sound _ name _ q here (record { leads = λ x k. cc k; empty = λ x k. cc k }) h

-- The closure is always computed, also for groups that contain one another, and a name is in it
-- exactly if the group leads to it and it has no members of its own.
pub closure_correct :
    (groups : Groups) (name : Text)
    → (q : Progress) × (closure_of groups name ≡ some q)
      × ((x : Text)
          → (In x q.result → Leads groups name x × (members groups x ≡ []))
            × (Leads groups name x → members groups x ≡ [] → In x q.result))
closure_correct groups name =
    let (q, h) = closure_of_total groups name in
    (
      q,
      h,
      λ x. (
        λ k. let s = closure-Sound_of groups name q h in (s.leads x k, s.empty x k),
        λ l e. (open_result groups name q h x (handled_all groups name q h l)).1 e,
      ),
    )
