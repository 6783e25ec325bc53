-- ===== src/Constraints/Context/Groups.antt =====
-- `NewContext` declares the groups of the controller set, each with its closure.
use kubecrtutils.Prelude.{
  ◌≡◌, refl, [], ◌∷◌, none, some, elem, arith, ==_iff, if◌then◌else◌, is_some,
}
use kubecrtutils.Prelude.Text.{Text, text_eq}
use kubecrtutils.Maps.{lookup, keys, elem-keys, lookup-insert}
use kubecrtutils.Maps.Sets.{elem-add}
use kubecrtutils.Constraints.Context.{
  Names, Groups, members, closure_set, close_groups, new_context, new_set, get_group, with_selected,
  Context,
}
use kubecrtutils.Constraints.Context.Visit.{In}
use kubecrtutils.Constraints.Context.Reach.{Leads, closure_correct}

lookup-close_groups :
    (groups : Groups) (names : Names) (x : Text)
    → lookup x (close_groups groups names)
      ≡ (if elem x names then some (closure_set groups x) else none)
unfolding close_groups
lookup-close_groups groups [] x = unfold lookup in refl
lookup-close_groups groups (n ∷ ns) x = ground (
  arith,
  lookup-insert x n (closure_set groups n) (close_groups groups ns),
  lookup-close_groups groups ns x,
  ==_iff n x,
)

pub elem-new_set : (x : Text) (ns : Names) → elem x (new_set ns) ≡ elem x ns
unfolding new_set
elem-new_set x [] = refl
elem-new_set x (n ∷ ns) = ground (arith, elem-add x n (new_set ns), elem-new_set x ns)

-- In the context of a controller set exactly its groups are declared; the members of a declared
-- group are the names without members that the group leads to.
pub get_group-new_context :
    (names : Names) (groups : Groups) (g : Text)
    → (is_some (get_group (new_context names groups) g) ≡ is_some (lookup g groups))
      × ((l : Names)
          → get_group (new_context names groups) g ≡ some l
          → (x : Text)
          → (In x l → Leads groups g x × (members groups x ≡ []))
            × (Leads groups g x → members groups x ≡ [] → In x l))
unfolding get_group new_context
get_group-new_context names groups g = (
  ground (arith, lookup-close_groups groups (keys groups) g, elem-keys g groups),
  λ l e x.
      let (q, h, both) = closure_correct groups g in
      let same : q.result ≡ l =
        unfold closure_set in ground (arith, lookup-close_groups groups (keys groups) g) in
      (λ k. (both x).0 (ground arith), λ w m. ground (arith, (both x).1 w m)),
)

-- `WithSelected` selects exactly the given names and keeps the declared names and groups.
pub with_selected_lem :
    (ctx : Context) (ns : Names) (x : Text)
    → (elem x (with_selected ctx ns).selected ≡ elem x ns)
      × ((with_selected ctx ns).groups ≡ ctx.groups)
      × ((with_selected ctx ns).all ≡ ctx.all)
unfolding with_selected
with_selected_lem ctx ns x = (elem-new_set x ns, refl, refl)
