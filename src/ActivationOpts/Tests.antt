-- ===== src/ActivationOpts/Tests.antt =====
-- Tests of the activation options, and the instances of their theorems.
use kubecrtutils.Prelude.{◌≡◌, ◌≢◌, ◌↔◌, ◌⊎◌, refl, true, [], ◌∷◌, some, elem}
use kubecrtutils.Prelude.Text.{Text, codes, text_eq}
use kubecrtutils.Strings.{split, join}
use kubecrtutils.Strings.Split.{elem-Lacks}
use kubecrtutils.Maps.{lookup, insert}
use kubecrtutils.Maps.Sets.{add, remove}
use kubecrtutils.ActivationOpts.{
  ControllerSet, Options, Names, get_activation, handle, simplify, simplify_from, simplify_one,
  shorten, dot, all_name,
}
use kubecrtutils.ActivationOpts.Reach.{Leads}
use kubecrtutils.ActivationOpts.Select.{
  activation_fuel, handle_correct, get_activation_correct, last_word, leaves_of, starts_selected,
}
use kubecrtutils.ActivationOpts.Short.{EndsIn, lookup-simplify}
use kubecrtutils.ActivationOpts.Hidden.{simplify_hides}

-- a group holds a controller and another group
abbrev controllers : ControllerSet
controllers = record {
  names = some (codes "a" ∷ codes "b" ∷ codes "c" ∷ []);
  groups =
      some ((codes "g", codes "a" ∷ codes "h" ∷ []) ∷ (codes "h", codes "g" ∷ codes "b" ∷ []) ∷ []);
}

-- all but those of the group, and one of them again
abbrev chosen : Options
chosen = record {
  set = controllers;
  names = codes "a" ∷ codes "b" ∷ codes "c" ∷ all_name ∷ codes "g" ∷ codes "h" ∷ [];
  activated = codes "-g" ∷ codes "+a" ∷ [];
}

handle_correct_example :
    ((more : Names) × (handle controllers [] add (activation_fuel controllers) (codes "g") [] []
        ≡ some more)
      × ((x : Text)
          → (elem x more ≡ true)
            ↔ ((elem {A = Text} x [] ≡ true) ⊎ Leads controllers [] [] (codes "g") x)))
    × ((less : Names) × (handle controllers [] remove
            (activation_fuel controllers)
            (codes "g")
            []
            []
          ≡ some less)
        × ((x : Text)
            → (elem x less ≡ true)
              ↔ ((elem {A = Text} x [] ≡ true) × ¬ Leads controllers [] [] (codes "g") x)))
handle_correct_example = handle_correct controllers [] (codes "g") []

get_activation_correct_example :
    (names : Names) × (get_activation (activation_fuel controllers) chosen ≡ some names)
    × ((x : Text)
        → elem x names
          ≡ last_word controllers
              (simplify chosen.names)
              x
              chosen.activated
              (starts_selected controllers chosen.activated x))
    × ((name x : Text)
        → (elem x (leaves_of controllers (simplify chosen.names) name) ≡ true)
          ↔ Leads controllers (simplify chosen.names) [] name x)
get_activation_correct_example = get_activation_correct chosen

abbrev listed : Names
listed = codes "a" ∷ codes "z.a" ∷ []

short_found : lookup (codes "a") (simplify listed) ≡ some (codes "a")
unfolding simplify simplify_from simplify_one shorten split lookup insert join
short_found = refl

lookup-simplify_example : (elem (codes "a") listed ≡ true) × EndsIn (codes "a") (codes "a")
lookup-simplify_example = lookup-simplify listed (codes "a") (codes "a") short_found

simplify_hides_example :
    (m : Text) × (lookup (codes "x.a") (simplify (codes "a" ∷ codes "y.x.a" ∷ codes "x.a" ∷ []))
      ≡ some m)
    × (m ≢ codes "x.a")
unfolding join
simplify_hides_example =
    simplify_hides (codes "a") (codes "x") (codes "y") (codes "a" ∷ []) (codes "x.a" ∷ [])
      (λ e. cc e) (elem-Lacks dot (codes "a") refl) (elem-Lacks dot (codes "x") refl) refl refl
