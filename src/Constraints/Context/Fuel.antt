-- ===== src/Constraints/Context/Fuel.antt =====
-- The recursion of `Closure` ends: each round that goes on marks one more group as handled.
use kubecrtutils.Prelude.{
  ℕ, zero, suc, ◌≤◌, ◌<◌, ◌≡◌, refl, false, [], ◌∷◌, some, inl, inr, length, elem, arith,
  Bool-cases, List-cases, ==_iff, if◌then◌else◌, ◌∙◌,
}
use kubecrtutils.Prelude.Text.{Text, text_eq}
use kubecrtutils.Maps.{keys, elem-keys}
use kubecrtutils.Maps.Sets.{add, elem-add}
use kubecrtutils.Constraints.Context.{Names, Groups, Progress, members, each, closure, closure_of}
use kubecrtutils.Constraints.Context.Visit.{
  In, In-add, marked, leaf, closure_handled, closure-leaf, closure_node, closure-Visits,
}

-- the names of `ks` that are not handled
open_count : Names → Names → ℕ
open_count [] handled = 0
open_count (k ∷ ks) handled =
    let rest = open_count ks handled in if elem k handled then rest else suc rest

open_count-le-length : (ks handled : Names) → open_count ks handled ≤ length ks
unfolding open_count
open_count-le-length [] handled = omega arith
open_count-le-length (k ∷ ks) handled = ground (arith, open_count-le-length ks handled)

open_count_mono :
    (ks s t : Names) → ((x : Text) → In x s → In x t) → open_count ks t ≤ open_count ks s
unfolding open_count
open_count_mono [] s t sub = omega arith
open_count_mono (k ∷ ks) s t sub = ground (arith, open_count_mono ks s t sub, sub k)

open_count-add :
    (ks s : Names) (n : Text)
    → In n ks
    → elem n s ≡ false
    → open_count ks (add n s) < open_count ks s
unfolding open_count
open_count-add [] s n h new = cc
open_count-add (k ∷ ks) s n h new = ground (
  arith,
  open_count-add ks s n,
  elem-add k n s,
  ==_iff k n,
  ==_iff n k,
  open_count_mono ks s (add n s) (λ x. In-add x n s),
)

module _ (groups : Groups) where
  abbrev open_groups : Names → ℕ
  open_groups = open_count (keys groups)

  -- a name with members is a group
  members_key : (n m : Text) (ms : Names) → members groups n ≡ m ∷ ms → In n (keys groups)
  unfolding members
  members_key n m ms e = ground (arith, elem-keys n groups)

  each_total :
      (fuel : ℕ)
      → ((n : Text) (p : Progress)
          → open_groups p.handled < fuel
          → (q : Progress) × (closure fuel groups n p ≡ some q))
      → (ns : Names) (p : Progress) → open_groups p.handled < fuel
      → (q : Progress) × (each (closure fuel groups) ns p ≡ some q)
  unfolding each
  each_total fuel ih [] p h = (p, refl)
  each_total fuel ih (n ∷ ns) p h =
      let (r, e) = ih n p h in
      let smaller =
        open_count_mono (keys groups) p.handled r.handled
          (closure-Visits groups fuel n p r e).keeps_handled in
      let (q, e') = each_total fuel ih ns r (omega arith) in (q, rw (e, each) e')

  -- More fuel than there are unhandled groups is enough.
  closure_total :
      (fuel : ℕ) (n : Text) (p : Progress)
      → open_groups p.handled < fuel
      → (q : Progress) × (closure fuel groups n p ≡ some q)
  closure_total zero n p h = absurd (omega arith)
  closure_total (suc fuel) n p h = elim (Bool-cases (elem n p.handled)) [
    | inl old ↦ (p, closure_handled groups fuel n p old)
    | inr new ↦ elim (List-cases (members groups n)) [
      | inl e ↦ (leaf groups n p, closure-leaf groups fuel n p new e)
      | inr (m, ms, e) ↦
          let less = open_count-add (keys groups) p.handled n (members_key n m ms e) new in
          let (q, e') =
            each_total fuel (closure_total fuel) (members groups n) (marked groups n p)
              (omega arith) in
          (q, closure_node groups fuel n p m ms new e ∙ e')
    ]
  ]

  pub closure_of_total : (n : Text) → (q : Progress) × (closure_of groups n ≡ some q)
  unfolding closure_of
  closure_of_total n = closure_total _ n _ (omega (arith, open_count-le-length (keys groups) []))
