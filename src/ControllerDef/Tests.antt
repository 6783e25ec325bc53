-- ===== src/ControllerDef/Tests.antt =====
-- Tests of the definitions of controllers, and the instance of their theorem.
use kubecrtutils.Prelude.{◌≡◌, refl, [], ◌∷◌, List, Option, none, some}
use kubecrtutils.Prelude.Text.{Text, codes, text_eq}
use kubecrtutils.Maps.{lookup, insert}
use kubecrtutils.Strings.{split}
use kubecrtutils.Mapping.{use_cluster}
use kubecrtutils.Group.{report, error_of}
use kubecrtutils.ControllerDef.{
  Definition, define, define_index, add_foreign, add_index, import_index, compose_name, split_index,
  two_fields, taken, complain, check_index, duplicate_import, undeclared,
}
use kubecrtutils.ControllerDef.Unique.{
  IsUnique, Built-IsUnique, defined, with_index, with_import, with_foreign,
}

-- the texts of the errors, and errors that are not wrapped
abbrev note : Option Text → List Text → List Text
note none l = l
note (some e) l = e ∷ l

abbrev bare : Option Text → List Text → Option Text
bare e ctx = e

abbrev owner : Text
owner = codes "o"

abbrev main : Text
main = codes "m"

abbrev other_cluster : Text
other_cluster = codes "x"

abbrev plain : Definition (List Text)
plain = define (codes "c") main []

abbrev indexed : Definition (List Text)
indexed = add_index note bare owner plain

abbrev imported : Definition (List Text)
imported = import_index note bare (define_index owner main) indexed

abbrev foreign : Definition (List Text)
foreign = add_foreign note bare (define_index owner other_cluster ∷ []) imported

split_composed : split_index (codes "o:m") ≡ (codes "o", codes "m")
unfolding split_index two_fields split
split_composed = refl

imported_again : imported.errlist ≡ duplicate_import (codes "o:m") ∷ []
unfolding import_index add_index define taken complain check_index report error_of lookup insert
    define_index compose_name use_cluster
imported_again = refl

not_declared : undeclared (main ∷ []) foreign.foreign ≡ some (define_index owner other_cluster)
unfolding undeclared add_foreign import_index add_index define taken complain check_index report
    error_of lookup insert define_index compose_name use_cluster
not_declared = refl

Built-IsUnique_example : IsUnique foreign
Built-IsUnique_example = Built-IsUnique note bare foreign (
    with_foreign (define_index owner other_cluster ∷ []) imported (
      with_import (define_index owner main) indexed
        (with_index owner plain (defined (codes "c") main []))))
