-- ===== src/Constraints/Context.antt =====
-- controller/constraints/constraints.go: the context in which constraints are matched, and the
-- closure of a controller group. `map[string]ControllerNames` is an association list, a set of
-- names a list.
pub mod Visit
pub mod Fuel
pub mod Reach
pub mod Groups
use kubecrtutils.Prelude.{
  ℕ, zero, suc, ◌≡◌, refl, Bool, true, false, List, [], ◌∷◌, Option, none, some, length, elem, ◌&&◌,
  ◌||◌, if◌then◌else◌,
}
use kubecrtutils.Prelude.Text.{Text, text_eq}
use kubecrtutils.Maps.{GoMap, lookup, insert, keys}
use kubecrtutils.Maps.Sets.{add}

abbrev pub Names : Type 0
Names = List Text

abbrev pub Groups : Type 0
Groups = GoMap Text Names

-- the sets that `Closure` fills
pub record Progress : Type 0 where
  pub result : Names
  pub handled : Names

-- `groups[name]`, with `nil` for a missing key
unfoldable pub members : Groups → Text → Names
members groups name = elim (lookup name groups) [ none ↦ [] | some l ↦ l ]

-- the loop `for _, n := range grp`, over the step that its body makes
unfoldable pub each : (Text → Progress → Option Progress) → Names → Progress → Option Progress
each step [] p = some p
each step (n ∷ ns) p = elim (step n p) [ none ↦ none | some p' ↦ each step ns p' ]

-- `Closure`; `none` means that the fuel ran out
unfoldable pub closure : ℕ → Groups → Text → Progress → Option Progress
unfolding each
closure zero groups name p = none
closure (suc fuel) groups name p = elim (elem name p.handled) [
  | true ↦ some p
  | false ↦ elim (members groups name) [
    | [] ↦ some (record { result = add name p.result; handled = add name p.handled })
    | n ∷ ns ↦ each (closure fuel groups) (n ∷ ns) (record p { handled = add name p.handled })
  ]
]

-- `Closure(name, groups, ControllerNames{}, ControllerNames{})`, with one round for each group and
-- one for a name that is none
unfoldable pub closure_of : Groups → Text → Option Progress
closure_of groups name =
    closure (suc (length (keys groups))) groups name (record { result = []; handled = [] })

-- the set of a group's closure; that the fuel never runs out is `closure_of_total`
unfoldable pub closure_set : Groups → Text → Names
closure_set groups name = elim (closure_of groups name) [ none ↦ [] | some p ↦ p.result ]

-- `_context`
pub record Context : Type 0 where
  pub all : Names
  pub groups : Groups
  pub selected : Names

-- `set.New(names...)`
unfoldable pub new_set : Names → Names
new_set [] = []
new_set (n ∷ ns) = add n (new_set ns)

-- the loop `for name := range groups` of `NewContext`
unfoldable pub close_groups : Groups → Names → Groups
close_groups groups [] = []
close_groups groups (name ∷ names) =
    insert name (closure_set groups name) (close_groups groups names)

-- `NewContext`, from the names and the groups of the controller set
unfoldable pub new_context : Names → Groups → Context
new_context names groups = record {
  all = new_set names;
  groups = close_groups groups (keys groups);
  selected = [];
}

-- `WithSelected` and `WithSelectedSet`; the maps and sets are copied, so nothing is shared
unfoldable pub with_selected : Context → Names → Context
unfolding new_set
with_selected ctx names = record ctx { selected = new_set names }

unfoldable pub with_selected_set : Context → Names → Context
with_selected_set ctx names = record ctx { selected = names }

-- `Has`: all the names are selected; `HasAny`: one of them is
unfoldable pub has : Context → Names → Bool
has ctx [] = true
has ctx (n ∷ ns) = elem n ctx.selected && has ctx ns

unfoldable pub has_any : Context → Names → Bool
has_any ctx [] = false
has_any ctx (n ∷ ns) = elem n ctx.selected || has_any ctx ns

-- `GetGroup`: `nil` for a name that is no group
unfoldable pub get_group : Context → Text → Option Names
get_group ctx name = lookup name ctx.groups
