-- ===== src/ComponentDefs/Tests.antt =====
-- Tests of the sets of components, and the instances of their theorems.
use kubecrtutils.Prelude.{◌≡◌, refl, true, [], ◌∷◌, Option, none, some, elem}
use kubecrtutils.Prelude.Text.{Text, codes, text_eq}
use kubecrtutils.Maps.{lookup}
use kubecrtutils.Constraints.Context.{Names}
use kubecrtutils.Constraints.Rules.{nil}
use kubecrtutils.Topo.{topo_sort, order, each, close, index}
use kubecrtutils.ComponentDefs.{
  Definitions, Elements, is_used, sort_elements, sorted, sort_outcome, deps, edges, node, apply,
  get_used_components,
}
use kubecrtutils.ComponentDefs.Used.{requires, get_used_components_correct}
use kubecrtutils.ComponentDefs.Calls.{apply-InOrder, InOrder, in_use}

abbrev a : Text
a = codes "a"

abbrev b : Text
b = codes "b"

-- `a` uses `b`
abbrev elements : Elements
elements =
    (
      a,
      record {
        name = a;
        components = b ∷ [];
        required_clusters = [];
        required_components = b ∷ [];
        constraints = nil;
      },
    )
    ∷ (
      b,
      record {
        name = b;
        components = [];
        required_clusters = [];
        required_components = [];
        constraints = nil;
      },
    )
    ∷ []

abbrev defs : Definitions
defs = record {
  elements = elements;
  cctx = record { all = []; groups = []; selected = [] };
  required = a ∷ b ∷ [];
  order = b ∷ a ∷ [];
}

order_found : sort_elements 3 elements (a ∷ b ∷ []) ≡ sorted (b ∷ a ∷ [])
unfolding sort_elements sort_outcome deps edges node topo_sort order each close index lookup
order_found = refl

abbrev fine : Text → Option Text
fine n = none

apply-InOrder_example :
    InOrder defs [] (apply defs fine (b ∷ a ∷ [])).0
    × ((apply defs fine (b ∷ a ∷ [])).1 ≡ none
        → (n : Text) → elem n (a ∷ b ∷ []) ≡ true
        → in_use defs n ≡ true
        → elem n (apply defs fine (b ∷ a ∷ [])).0 ≡ true)
apply-InOrder_example = apply-InOrder defs fine 3 (a ∷ b ∷ []) (b ∷ a ∷ []) order_found

get_used_components_correct_example :
    (names : Names) × (get_used_components 2 (λ i. elements) defs ≡ some names)
    × ((x : Text)
        → elem x names
          ≡ requires
              (λ c. (is_used defs.cctx defs.required c).0)
              (λ c. c.required_components)
              x
              elements)
get_used_components_correct_example =
    get_used_components_correct 0 (λ i. elements) defs (λ i x. refl)
