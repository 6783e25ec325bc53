-- ===== src/Constraints/Rules/Groups.antt =====
-- When `Activated` and `Complete` accept a selection.
use kubecrtutils.Prelude.{
  ◌≤◌, ◌≡◌, refl, ◌↔◌, true, [], ◌∷◌, none, some, length, All, arith, inl, inr, ==_iff, nat_eq,
  Bool-cases, Option-cases, ◌==◌, subst,
}
use kubecrtutils.Prelude.Text.{Text, text_eq}
use kubecrtutils.Maps.Sets.{inter}
use kubecrtutils.Constraints.Activation.{said_no, no_opinion}
use kubecrtutils.Constraints.Context.{Names, Context, has, get_group}
use kubecrtutils.Constraints.Context.Visit.{In}
use kubecrtutils.Constraints.Rules.{match, activated, complete, match_activated, match_complete}

abbrev pub AllIn : Names → Names → Type 0
AllIn g s = (x : Text) → In x g → In x s

length-inter-le : (g s : Names) → length (inter g s) ≤ length g
unfolding inter
length-inter-le [] s = omega arith
length-inter-le (x ∷ g) s = ground (arith, length-inter-le g s)

-- a set has the size of its intersection exactly if it is contained
length-inter : (g s : Names) → (length g ≡ length (inter g s)) ↔ AllIn g s
unfolding inter
length-inter [] s = (λ _ x h. cc h, λ _. refl)
length-inter (x ∷ g) s = (
  λ e y h.
      let inside : In x s = ground (arith, length-inter-le g s) in
      let rest : length g ≡ length (inter g s) = ground arith in
      ground (arith, ==_iff x y, (length-inter g s).0 rest y),
  λ sub.
      let inside : In x s = sub x (ground (arith, ==_iff x x)) in
      let rest = (length-inter g s).1 (λ y h. sub y (ground arith)) in ground arith,
)

-- the group is declared, and all its members are selected
abbrev pub IsSelected : Context → Text → Type 0
IsSelected ctx name = (g : Names) × (get_group ctx name ≡ some g) × AllIn g ctx.selected

match_complete_iff :
    (groups : Names) (ctx : Context)
    → ((match_complete groups ctx).1 ≡ none) ↔ All (IsSelected ctx) groups
unfolding match_complete
match_complete_iff [] ctx = (λ _. tt, λ _. refl)
match_complete_iff (name ∷ groups) ctx = elim (Option-cases (get_group ctx name)) [
  | inl e ↦ (λ h. cc (rw (e, match_complete) at h), λ h. cc (e, h.0.1))
  | inr (g, e) ↦ elim (Bool-cases (length g == length (inter g ctx.selected))) [
    | inl full ↦ (
      λ h. (
        (
          g,
          e,
          (length-inter g ctx.selected).0
              ((==_iff (length g) (length (inter g ctx.selected))).0 full),
        ),
        (match_complete_iff groups ctx).0 (ground arith),
      ),
      λ h. ground (arith, (match_complete_iff groups ctx).1 h.1),
    )
    | inr part ↦ (
      λ h. absurd (ground arith),
      λ h.
          let (g', e', sub) = h.0 in
          let same : g' ≡ g = cc (e, e') in
          let full = (length-inter g ctx.selected).1 (subst (λ z. AllIn z ctx.selected) same sub) in
          absurd (ground (arith, ==_iff (length g) (length (inter g ctx.selected)))),
    )
  ]
]

match_complete_activation :
    (groups : Names) (ctx : Context) → (match_complete groups ctx).0 ≡ no_opinion
unfolding match_complete
match_complete_activation [] ctx = refl
match_complete_activation (name ∷ groups) ctx = ground (arith, match_complete_activation groups ctx)

-- `Complete` never has an opinion, and it reports no error exactly if each of its groups is
-- declared and has all its members selected.
pub complete_correct :
    (groups : Names) (ctx : Context)
    → ((match (complete groups) ctx).0 ≡ no_opinion)
      × (((match (complete groups) ctx).1 ≡ none) ↔ All (IsSelected ctx) groups)
unfolding match
complete_correct groups ctx = (match_complete_activation groups ctx, match_complete_iff groups ctx)

has_iff : (ctx : Context) (ns : Names) → (has ctx ns ≡ true) ↔ All (λ n. In n ctx.selected) ns
unfolding has
has_iff ctx [] = (λ _. tt, λ _. refl)
has_iff ctx (n ∷ ns) = (
  λ h. (ground arith, (has_iff ctx ns).0 (ground arith)),
  λ h. ground (arith, (has_iff ctx ns).1 h.1),
)

-- `Activated` never fails. Without names it has no opinion; otherwise it says `Yes` exactly if all
-- its names are selected, and `No` exactly if not.
pub activated_correct :
    (ns : Names) (ctx : Context)
    → ((match (activated ns) ctx).1 ≡ none)
      × (((match (activated ns) ctx).0 ≡ no_opinion) ↔ (ns ≡ []))
      × (((match (activated ns) ctx).0 ≡ said_no) ↔ (¬ All (λ n. In n ctx.selected) ns))
unfolding match match_activated
activated_correct [] ctx = (refl, (λ _. refl, λ _. refl), (λ h. cc h, λ h. absurd (h tt)))
activated_correct (n ∷ ns) ctx = elim (Bool-cases (has ctx (n ∷ ns))) [
  | inl every ↦ (
    ground arith,
    (λ h. absurd (ground arith), λ h. cc h),
    (λ h. absurd (ground arith), λ h. absurd (h ((has_iff ctx (n ∷ ns)).0 every))),
  )
  | inr some_not ↦ (
    ground arith,
    (λ h. absurd (ground arith), λ h. cc h),
    (λ h every. cc (some_not, (has_iff ctx (n ∷ ns)).1 every), λ h. ground arith),
  )
]
