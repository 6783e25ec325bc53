-- ===== src/Group/Tests.antt =====
-- Tests of the groups, and the instances of their theorems.
use kubecrtutils.Prelude.{◌≡◌, refl, true, [], ◌∷◌, none, some, List, Option, is_some, ◌||◌}
use kubecrtutils.Prelude.Text.{Text, codes, text_eq}
use kubecrtutils.Maps.{lookup, insert}
use kubecrtutils.Group.{
  Element, other, provider, Group, Definitions, add, add_one, add_to_group, add_definitions, get,
  report, error_of,
}
use kubecrtutils.Group.Correct.{Lists, Promises, errors_correct, definitions_correct}

-- an error list that keeps the first error, and errors that are not wrapped
abbrev keep : Option Text → Option Text → Option Text
keep none l = l
keep (some e) none = some e
keep (some e) (some l) = some l

abbrev bare : Option Text → List Text → Option Text
bare e ctx = e

abbrev same : Option Text → Option Text
same l = l

keep-Promises : Promises keep bare same
keep-Promises = (λ e ctx. refl, kept)
  where
    kept : (e l : Option Text) → is_some (keep e l) ≡ (is_some e || is_some l)
    kept none l = refl
    kept (some e) none = refl
    kept (some e) (some l) = refl

abbrev a : Element
a = record { name = codes "a"; subject = other }

abbrev a_again : Element
a_again = record { name = codes "a"; subject = provider none }

abbrev b : Element
b = record { name = codes "b"; subject = provider (some (codes "bad")) }

abbrev none_yet : Group (Option Text)
none_yet = record { typename = codes "index"; elements = []; errlist = none }

abbrev no_definitions : Definitions (Option Text)
no_definitions = record { base = none_yet; options = [] }

Lists-empty : Lists [] none_yet
unfolding get lookup
Lists-empty n = refl

duplicate_hidden :
    (add_to_group keep bare (a ∷ a_again ∷ record a { name = codes "c" } ∷ []) none_yet).0 ≡ none
unfolding add_to_group add add_one report lookup insert error_of
duplicate_hidden = refl

errors_correct_example : is_some (add keep bare (a ∷ a_again ∷ []) none none_yet).1.errlist ≡ true
unfolding error_of
errors_correct_example =
    errors_correct keep bare same keep-Promises (a ∷ a_again ∷ []) none none_yet [] Lists-empty

definitions_correct_example :
    ((add_definitions keep bare (a ∷ b ∷ []) no_definitions).base
      ≡ (add_to_group keep bare (a ∷ b ∷ []) none_yet).1)
    × ((add_definitions keep bare (a ∷ b ∷ []) no_definitions).options ≡ a ∷ [])
unfolding error_of
definitions_correct_example =
    definitions_correct keep bare same keep-Promises (a ∷ b ∷ []) no_definitions [] Lists-empty
