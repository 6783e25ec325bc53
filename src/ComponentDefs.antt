-- ===== src/ComponentDefs.antt =====
-- component/defs.go and the sets of controller/defs.go: which components are used, and the order in
-- which they are applied. The context of the constraints is the one that `Validate` has set.
-- `TopoSort` calls `GetComponents` of every definition that it comes to; for the name of an unknown
-- component this is a call on `nil`, which the graph has as a loop that ends the sort there.
mod Tests
pub mod Used
pub mod Calls
use kubecrtutils.Prelude.{
  ℕ, zero, suc, Bool, true, false, not, ◌&&◌, ◌||◌, List, [], ◌∷◌, ◌++◌, Option, none, some,
  if◌then◌else◌, ◌==◌, elem, length, nat_eq, map, is_some,
}
use kubecrtutils.Prelude.Text.{Text, codes, text_eq}
use kubecrtutils.Maps.{GoMap, lookup}
use kubecrtutils.Maps.Sets.{add}
use kubecrtutils.Constraints.Activation.{Activation, said_yes, said_no, no_opinion}
use kubecrtutils.Constraints.Context.{Names, Context, has}
use kubecrtutils.Constraints.Rules.{Constraints, Verdict, MatchError, match_all}
use kubecrtutils.Topo.{Outcome, done, cycle, out_of_fuel, topo_sort}

-- `Definition` of a component or a controller, by what the sets ask it for: the required names are
-- those for a `nil` mapping, and the two sets are listed in an order of iteration
pub record Definition : Type 0 where
  pub name : Text
  pub components : Names
  pub required_clusters : Names
  pub required_components : Names
  pub constraints : Constraints

abbrev pub Elements : Type 0
Elements = GoMap Text Definition

-- `_definitions` of components
pub record Definitions : Type 0 where
  pub elements : Elements
  pub cctx : Context
  pub required : Names
  pub order : Names

-- `isUsed`, behind the verdict of the constraints
unfoldable pub decide : Names → Text → Verdict → Bool × Option MatchError
decide required name (a, some err) = (false, some err)
decide required name (said_yes, none) = (true, none)
decide required name (said_no, none) = (false, none)
decide required name (no_opinion, none) = (elem name required, none)

-- `isUsed`
unfoldable pub is_used : Context → Names → Definition → Bool × Option MatchError
unfolding decide
is_used cctx required c = decide required c.name (match_all c.constraints cctx)

-- `names.AddAll(…)`
unfoldable pub add_all : Names → Names → Names
add_all [] names = names
add_all (n ∷ ns) names = add_all ns (add n names)

-- one range over the elements, for one kind of the required names
unfoldable pub collect : (Definition → Bool) → (Definition → Names) → Elements → Names → Names
collect used names_of [] names = names
collect used names_of ((n, c) ∷ elements) names =
    collect used names_of elements (if used c then add_all (names_of c) names else names)

-- the same range with `mod = mod || l != len(names)`
unfoldable pub modified : (Definition → Bool) → Elements → Names → Bool → Bool
modified used [] names changed = changed
modified used ((n, c) ∷ elements) names changed =
    let next = add_all c.required_components names in
    if used c
    then modified used elements next (changed || not (length names == length next))
    else modified used elements names changed

-- the loop of `GetUsedComponents`, over the orders of its ranges
unfoldable pub until_stable : (Definition → Bool) → (ℕ → Elements) → ℕ → ℕ → Names → Option Names
unfolding collect modified
until_stable used ranges zero i names = none
until_stable used ranges (suc fuel) i names =
    let next = collect used (λ c. c.required_components) (ranges i) names in
    elim (modified used (ranges i) names false) [
      | true ↦ until_stable used ranges fuel (suc i) next
      | false ↦ some next
    ]

-- `GetUsedClusters` and `GetUsedComponents` of the components
unfoldable pub get_used_clusters : Definitions → Names
unfolding collect
get_used_clusters d =
    collect (λ c. (is_used d.cctx d.required c).0) (λ c. c.required_clusters) d.elements []

unfoldable pub get_used_components : ℕ → (ℕ → Elements) → Definitions → Option Names
unfolding until_stable
get_used_components fuel ranges d =
    until_stable (λ c. (is_used d.cctx d.required c).0) ranges fuel 0 []

-- `GetUsedClusters` and `GetUsedComponents` of the controllers
unfoldable pub controller_clusters : Context → Elements → Names
unfolding collect
controller_clusters ctx elements =
    collect (λ c. has ctx (c.name ∷ [])) (λ c. c.required_clusters) elements []

unfoldable pub controller_components : Context → Elements → Names
unfolding collect
controller_components ctx elements =
    collect (λ c. has ctx (c.name ∷ [])) (λ c. c.required_components) elements []

-- the check of `Validate` of the controllers: the first controller that uses an unknown component
unfoldable pub unknown_of : Option Elements → Names → Option Text
unknown_of none [] = none
unknown_of none (u ∷ us) = some u
unknown_of (some comps) [] = none
unknown_of (some comps) (u ∷ us) =
    let rest = unknown_of (some comps) us in if is_some (lookup u comps) then rest else some u

unfoldable pub unknown_component : Option Elements → Elements → Option (Text × Text)
unfolding unknown_of
unknown_component comps [] = none
unknown_component comps ((n, c) ∷ elements) = elim (unknown_of comps c.components) [
  | some u ↦ some (n, u)
  | none ↦ unknown_component comps elements
]

-- an element of the graph: a name and what `Get` finds for it
abbrev pub Node : Type 0
Node = Text × Option Definition

unfoldable pub node : Elements → Text → Node
node elements n = (n, lookup n elements)

-- `deps`
unfoldable pub edges : Elements → Names → List (Text × Node)
unfolding node
edges elements [] = []
edges elements (k ∷ ks) = (k, node elements k) ∷ edges elements ks

unfoldable pub deps : Elements → Node → List (Text × Node)
unfolding edges
deps elements (n, none) = edges elements (n ∷ [])
deps elements (n, some c) = edges elements c.components

-- what `TopoSort` of the elements comes to
pub data Sorted : Type 0 where
  sorted : Names → Sorted
  cyclic : Names → Sorted
  panics : Sorted
  unfinished : Sorted

unfoldable pub all_known : Elements → Names → Bool
all_known elements [] = true
all_known elements (n ∷ ns) = is_some (lookup n elements) && all_known elements ns

unfoldable pub sort_outcome : Elements → Outcome Text → Sorted
unfolding all_known
sort_outcome elements (done o) = sorted o
sort_outcome elements (cycle c) = if all_known elements c then cyclic c else panics
sort_outcome elements out_of_fuel = unfinished

-- `utils.TopoSort(d.Elements, d.deps)`, for an order of iteration of the elements
unfoldable pub sort_elements : ℕ → Elements → Names → Sorted
unfolding deps edges sort_outcome
sort_elements fuel elements names =
    sort_outcome elements (topo_sort (deps elements) fuel (edges elements names))

-- `Apply`, where `apply_one` is `Apply` of a component: the components that are applied, and the
-- error. An order that a sort has returned has no unknown names.
unfoldable pub apply : Definitions → (Text → Option Text) → Names → Names × Option Text
apply d apply_one [] = ([], none)
apply d apply_one (n ∷ order) =
    let (calls, err) = apply d apply_one order in
    elim (lookup n d.elements) [
      | none ↦ (calls, err)
      | some c ↦
          if (is_used d.cctx d.required c).0
          then elim (apply_one n) [ some e ↦ (n ∷ [], some e) | none ↦ (n ∷ calls, err) ]
          else (calls, err)
    ]
