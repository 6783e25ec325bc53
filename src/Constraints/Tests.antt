-- ===== src/Constraints/Tests.antt =====
-- Tests of controller/constraints, on the settings of its test suite, and the instances of the
-- theorems.
use kubecrtutils.Prelude.{◌≡◌, refl, if◌then◌else◌, [], ◌∷◌, none, some, is_some}
use kubecrtutils.Prelude.Text.{Text, text_eq, codes}
use kubecrtutils.Maps.{lookup, insert}
use kubecrtutils.Maps.Sets.{add, inter}
use kubecrtutils.Constraints.Activation.{said_yes, said_no, no_opinion}
use kubecrtutils.Constraints.Context.{
  Names, Groups, Progress, Context, members, each, closure, closure_of, closure_set, close_groups,
  new_set, new_context, with_selected, get_group,
}
use kubecrtutils.Constraints.Context.Visit.{In}
use kubecrtutils.Constraints.Context.Reach.{Leads, closure_correct}
use kubecrtutils.Constraints.Context.Groups.{get_group-new_context}
use kubecrtutils.Constraints.Rules.{
  Constraints, activated, complete, disjoint, and_of, or_of, not_of, cons, nil, match, verdicts,
  match_complete, match_disjoint, disjoint_loop, scan, hit, incomplete, overlapping,
}
use kubecrtutils.Constraints.Rules.Operators.{
  any_yes, any_no, first_no, all_errors, in_favour, any_clean, and_correct, or_correct, not-and_of,
  negate,
}
use kubecrtutils.Constraints.Rules.Disjoint.{in_use, two_in_use, disjoint_correct}

abbrev setting : Groups
setting =
    (codes "A", codes "a" ∷ codes "b" ∷ [])
    ∷ (codes "B", codes "c" ∷ codes "d" ∷ [])
    ∷ (codes "C", codes "A" ∷ codes "c" ∷ [])
    ∷ (codes "D", codes "A" ∷ codes "D" ∷ [])
    ∷ []

abbrev names : Names
names = codes "a" ∷ codes "b" ∷ codes "c" ∷ codes "d" ∷ codes "e" ∷ []

abbrev selecting : Names → Context
selecting = with_selected (new_context names setting)

closure_d : closure_set setting (codes "D") ≡ codes "b" ∷ codes "a" ∷ []
unfolding closure_set closure_of closure each members lookup add
closure_d = refl

complete_fails :
    match (complete (codes "A" ∷ [])) (selecting (codes "a" ∷ []))
    ≡ (no_opinion, some (incomplete (codes "A") (codes "b" ∷ codes "a" ∷ [])))
unfolding match match_complete selecting with_selected new_context new_set get_group close_groups
    closure_set closure_of closure each members lookup insert add inter
complete_fails = refl

disjoint_fails :
    match
      (disjoint (codes "A" ∷ codes "B" ∷ []))
      (selecting (codes "a" ∷ codes "b" ∷ codes "c" ∷ []))
    ≡ (said_yes, some (overlapping (codes "A") (codes "B")))
unfolding match match_disjoint disjoint_loop scan hit with_selected new_context new_set get_group
    close_groups closure_set closure_of closure each members lookup insert add inter
disjoint_fails = refl

closure_correct_example :
    (q : Progress) × (closure_of setting (codes "D") ≡ some q)
    × ((x : Text)
        → (In x q.result → Leads setting (codes "D") x × (members setting x ≡ []))
          × (Leads setting (codes "D") x → members setting x ≡ [] → In x q.result))
closure_correct_example = closure_correct setting (codes "D")

get_group-new_context_example :
    (is_some (get_group (new_context names setting) (codes "C"))
      ≡ is_some (lookup (codes "C") setting))
    × ((l : Names)
        → get_group (new_context names setting) (codes "C") ≡ some l
        → (x : Text)
        → (In x l → Leads setting (codes "C") x × (members setting x ≡ []))
          × (Leads setting (codes "C") x → members setting x ≡ [] → In x l))
get_group-new_context_example = get_group-new_context names setting (codes "C")

abbrev two : Constraints
two = cons (complete (codes "A" ∷ [])) (cons (activated (codes "c" ∷ [])) nil)

abbrev a_only : Context
a_only = selecting (codes "a" ∷ [])

and_correct_example : match (and_of two) a_only ≡ (elim (first_no (verdicts two a_only)) [
  | some e ↦ (said_no, e)
  | none ↦ (
    if any_yes (verdicts two a_only) then said_yes else no_opinion,
    all_errors (codes "AND") none (verdicts two a_only),
  )
])
and_correct_example = and_correct two a_only

or_correct_example : match (or_of two) a_only ≡ (
  if any_yes (verdicts two a_only)
      then said_yes
      else if any_no (verdicts two a_only)
      then said_no
      else no_opinion,
  if any_clean (in_favour (verdicts two a_only))
      then none
      else all_errors (codes "OR") none (in_favour (verdicts two a_only)),
)
or_correct_example = or_correct two a_only

not-and_of_example :
    ((match (not_of (and_of two)) a_only).0 ≡ (match (or_of (negate two)) a_only).0)
    × ((match (not_of (or_of two)) a_only).0 ≡ (match (and_of (negate two)) a_only).0)
not-and_of_example = not-and_of two a_only

abbrev declared : Context
declared = record {
  all = codes "a" ∷ codes "c" ∷ [];
  groups = (codes "A", codes "a" ∷ []) ∷ (codes "B", codes "c" ∷ []) ∷ [];
  selected = codes "a" ∷ codes "c" ∷ [];
}

disjoint_correct_example :
    match (disjoint (codes "A" ∷ codes "B" ∷ [])) declared
    ≡ two_in_use (in_use declared (codes "A" ∷ codes "B" ∷ []))
unfolding get_group lookup
disjoint_correct_example =
    disjoint_correct (codes "A" ∷ codes "B" ∷ []) declared
      ((λ e. cc e, (codes "a" ∷ [], refl)), ((λ e. cc e, (codes "c" ∷ [], refl)), tt))
