-- ===== src/Objects.antt =====
-- objutils/{annotation,labels}.go: annotations and labels of an object. The getters of the
-- Kubernetes objects return the map itself, so a `delete` on it changes the object.
mod Tests
use kubecrtutils.Prelude.{
  ◌≡◌, ◌≢◌, refl, Bool, true, false, ◌&&◌, [], ◌∷◌, Option, none, some, arith, if◌then◌else◌, ◌==◌,
  ==_iff, is_some,
}
use kubecrtutils.Prelude.Text.{Text, text_eq}
use kubecrtutils.Maps.{GoMap, lookup, insert, delete, lookup-insert, lookup-delete}

-- `map[string]string`, which may be `nil`
abbrev pub Values : Type 0
Values = Option (GoMap Text Text)

pub record Object : Type 0 where
  pub annotations : Values
  pub labels : Values

-- `values[key] = value` on the map, or on a new one for `nil`
unfoldable pub set_value : Text → Text → Values → Values
set_value key value none = some (insert key value [])
set_value key value (some m) = some (insert key value m)

-- `values[key]`, and whether it is there
unfoldable pub value : Values → Text → Option Text
value none key = none
value (some m) key = lookup key m

unfoldable pub delete_value : Text → Values → Values
delete_value key none = none
delete_value key (some m) = some (delete key m)

abbrev pub or_empty : Option Text → Text
or_empty none = []
or_empty (some v) = v

-- `SetAnnotation`
unfoldable pub set_annotation : Text → Text → Object → Object
unfolding set_value
set_annotation key v obj = record obj { annotations = set_value key v obj.annotations }

-- `ModifyAnnotations` and `ModifyLabels`; the modifier may be `nil`
unfoldable pub modify_annotations : Option (Values → Values) → Object → Object
modify_annotations none obj = obj
modify_annotations (some f) obj = record obj { annotations = f obj.annotations }

unfoldable pub modify_labels : Option (Values → Values) → Object → Object
modify_labels none obj = obj
modify_labels (some f) obj = record obj { labels = f obj.labels }

-- `CheckAnnotation`
unfoldable pub check_annotation : Text → Text → Object → Bool
unfolding value
check_annotation key v obj = elim (value obj.annotations key) [ none ↦ false | some e ↦ e == v ]

-- `GetAnnotation` and `GetLabel`
unfoldable pub get_annotation : Text → Object → Text
unfolding value
get_annotation key obj = or_empty (value obj.annotations key)

unfoldable pub get_label : Text → Object → Text
unfolding value
get_label key obj = or_empty (value obj.labels key)

-- `RemoveAnnotation` and `RemoveLabel`, with the object that they leave
unfoldable pub remove_annotation : Text → Object → Bool × Object
unfolding value delete_value
remove_annotation key obj = (
  is_some (value obj.annotations key),
  record obj { annotations = delete_value key obj.annotations },
)

unfoldable pub remove_label : Text → Object → Bool × Object
unfolding value delete_value
remove_label key obj =
    (is_some (value obj.labels key), record obj { labels = delete_value key obj.labels })

-- `Setlabel`
unfoldable pub set_label : Text → Text → Object → Object
unfolding set_value
set_label key v obj = record obj { annotations = set_value key v obj.annotations }

value-set_value :
    (k v j : Text) (m : Values) → value (set_value k v m) j ≡ (if k == j then some v else value m j)
unfolding value set_value
value-set_value k v j none = ground (arith, lookup-insert j k v [], no_entry j)
  where
    no_entry : (j : Text) → lookup {V = Text} j [] ≡ none
    no_entry j = unfold lookup in refl
value-set_value k v j (some m) = lookup-insert j k v m

value-delete_value :
    (k j : Text) (m : Values) → value (delete_value k m) j ≡ (if k == j then none else value m j)
unfolding value delete_value
value-delete_value k j none = ground arith
value-delete_value k j (some m) = lookup-delete j k m

-- `SetAnnotation` sets one annotation, which `GetAnnotation` and `CheckAnnotation` then show, and
-- keeps the others and the labels; `RemoveAnnotation` removes one and reports whether it was there.
pub annotation_laws :
    (k v j : Text) (obj : Object)
    → (get_annotation j (set_annotation k v obj) ≡ (if k == j then v else get_annotation j obj))
      × (check_annotation k v (set_annotation k v obj) ≡ true)
      × (get_label j (set_annotation k v obj) ≡ get_label j obj)
      × (get_annotation j (remove_annotation k obj).1
          ≡ (if k == j then [] else get_annotation j obj))
      × ((remove_annotation k obj).0 ≡ is_some (value obj.annotations k))
      × (check_annotation k v (remove_annotation k obj).1 ≡ false)
unfolding get_annotation set_annotation check_annotation get_label remove_annotation
annotation_laws k v j obj = (
  ground (arith, value-set_value k v j obj.annotations),
  ground (arith, value-set_value k v k obj.annotations, ==_iff k k, ==_iff v v),
  refl,
  ground (arith, value-delete_value k j obj.annotations),
  refl,
  ground (arith, value-delete_value k k obj.annotations, ==_iff k k),
)

-- `Setlabel` changes no label: it sets an annotation.
pub set_label_lem :
    (k v j : Text) (obj : Object)
    → (get_label j (set_label k v obj) ≡ get_label j obj)
      × (get_annotation j (set_label k v obj) ≡ (if k == j then v else get_annotation j obj))
unfolding set_label get_label get_annotation
set_label_lem k v j obj = (refl, ground (arith, value-set_value k v j obj.annotations))
