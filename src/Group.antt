-- ===== src/Group.antt =====
-- internal/{group,definitions,element}.go: named elements with the errors of their declaration.
-- The mutexes are held for a whole operation each, so an operation is one step. The error list
-- and `errors.Wrap` come from another library: `L` is the type of the error lists, `add_error` its
-- `Add` and `wrap` the wrapping. An `error` is seen through its text.
mod Tests
pub mod Correct
use kubecrtutils.Prelude.{
  ℕ, ◌≡◌, Bool, true, false, List, [], ◌∷◌, ◌++◌, Option, none, some, if◌then◌else◌, length,
}
use kubecrtutils.Prelude.Text.{Text, codes, text_eq}
use kubecrtutils.Maps.{GoMap, lookup, insert, keys}

-- the dynamic types that `AddError` tells apart: an error, an `ErrorProvider` with its error, a
-- string, anything else, and `nil`
pub data Subject : Type 0 where
  is_error : Text → Subject
  provider : Option Text → Subject
  is_string : Text → Subject
  other : Subject
  is_nil : Subject

-- what an element shows: its name, and what it is to `AddError`
pub record Element : Type 0 where
  pub name : Text
  pub subject : Subject

-- `_group`
pub record Group (L : Type 0) : Type 0 where
  pub typename : Text
  pub elements : GoMap Text Element
  pub errlist : L

-- `DefinitionsImpl`: the group, and the elements that were offered to the option set
pub record Definitions (L : Type 0) : Type 0 where
  pub base : Group L
  pub options : List Element

-- the type switch of `AddError`
unfoldable pub error_of : Subject → Option Text
error_of (is_error e) = some e
error_of (provider e) = e
error_of (is_string s) = some s
error_of other = none
error_of is_nil = none

-- `fmt.Errorf("%s %q already exists", …)`; a name needs no escape
unfoldable pub exists_text : Text → Text → Text
exists_text typename name = typename ++ (codes " \"" ++ (name ++ codes "\" already exists"))

module _ {L : Type 0} (add_error : Option Text → L → L)
    (wrap : Option Text → List Text → Option Text) where
  -- `AddError`, with the error that it returns
  unfoldable pub report : Subject → List Text → L → Option Text × L
  report is_nil ctx l = (none, l)
  report s ctx l = let err = wrap (error_of s) ctx in (err, add_error err l)

  -- one round of the loop of `add`
  unfoldable pub add_one : Element → Group L → Option Text × Group L
  add_one e c = elim (lookup e.name c.elements) [
    | some old ↦
        let (err, l) = report (is_error (exists_text c.typename e.name)) [] c.errlist in
        (err, record c { errlist = l })
    | none ↦
        let (err, l) = report e.subject ((c.typename ++ (codes " " ++ e.name)) ∷ []) c.errlist in
        (err, record c { elements = insert e.name e c.elements; errlist = l })
  ]

  -- `add`, from the error so far
  unfoldable pub add : List Element → Option Text → Group L → Option Text × Group L
  add [] err c = (err, c)
  add (e ∷ elem) err c = let (err', c') = add_one e c in add elem err' c'

  -- `Group.Add`
  unfoldable pub add_to_group : List Element → Group L → Option Text × Group L
  add_to_group elem c = add elem none c

  -- `DefinitionsImpl.Add`
  unfoldable pub add_definitions : List Element → Definitions L → Definitions L
  add_definitions [] d = d
  add_definitions (e ∷ elems) d =
      let (err, base) = add (e ∷ []) none d.base in
      add_definitions elems (elim err [
        | none ↦ record { base = base; options = d.options ++ e ∷ [] }
        | some t ↦ record { base = base; options = d.options }
      ])

-- `NewGroup`, with the new error list
unfoldable pub new_group : {L : Type 0} → Text → L → Group L
new_group name l = record { typename = name; elements = []; errlist = l }

-- `NewDefinitions`
unfoldable pub new_definitions : {L : Type 0} → Text → L → Definitions L
unfolding new_group
new_definitions name l = record { base = new_group name l; options = [] }

-- `Len`
unfoldable pub len : {L : Type 0} → Group L → ℕ
len c = length c.elements

-- `Get`; a missing name gives the zero value
unfoldable pub get : {L : Type 0} → Text → Group L → Option Element
get name c = lookup name c.elements

-- `Elements`, as long as `yield` asks for more, over the copy of the map
unfoldable pub visit : GoMap Text Element → (Text → Element → Bool) → List Text
visit [] yield = []
visit ((n, e) ∷ m) yield = let rest = visit m yield in if yield n e then n ∷ rest else n ∷ []

unfoldable pub elements_of : {L : Type 0} → Group L → (Text → Element → Bool) → List Text
unfolding visit
elements_of c yield = visit c.elements yield
