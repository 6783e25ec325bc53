-- ===== src/ActivationOpts.antt =====
-- options/activationopts/options.go: the controllers that the option `--controllers` activates. A
-- group that has an entry has a list, since the entries are made by appending to them; a slice or map
-- that is `nil` is `none`. `handle` deletes the name that it adds to the handled names, so each
-- call finds those that are open above it.
mod Tests
pub mod Leaves
pub mod Reach
pub mod Select
pub mod Short
pub mod Stays
pub mod Hidden
use kubecrtutils.Prelude.{
  ℕ, zero, suc, Bool, true, false, not, List, [], ◌∷◌, ◌++◌, Option, none, some, if◌then◌else◌,
  ◌==◌, elem, length, drop, nat_eq, ◌-◌,
}
use kubecrtutils.Prelude.Text.{Text, codes, text_eq}
use kubecrtutils.Strings.{split, join, starts_with, trim_left}
use kubecrtutils.Maps.{GoMap, lookup, insert, keys}
use kubecrtutils.Maps.Sets.{add, remove}

abbrev pub Names : Type 0
Names = List Text

-- `ALL`
abbrev pub all_name : Text
all_name = codes "all"

-- the bytes of `-`, `+` and `.`
abbrev pub minus : ℕ
minus = 45

abbrev pub plus : ℕ
plus = 43

abbrev pub dot : ℕ
dot = 46

-- `ControllerSet`, by its names and groups
pub record ControllerSet : Type 0 where
  pub names : Option Names
  pub groups : Option (GoMap Text Names)

-- `Options`
pub record Options : Type 0 where
  pub set : ControllerSet
  pub names : Names
  pub activated : Names

-- a slice that may be `nil`
unfoldable pub entries : Option Names → Names
entries none = []
entries (some l) = l

-- the keys of the groups; `maputils.OrderedKeys` sorts them
unfoldable pub group_names : (Names → Names) → Option (GoMap Text Names) → Names
group_names sort none = sort []
group_names sort (some g) = sort (keys g)

-- `Prepare` with a controller source
unfoldable pub prepare : (Names → Names) → Option ControllerSet → Options → Options
unfolding entries group_names
prepare sort none o = o
prepare sort (some s) o = elim (entries s.names) [
  | [] ↦ record o { set = s }
  | n ∷ ns ↦ record o { set = s; names = (n ∷ ns) ++ all_name ∷ group_names sort s.groups }
]

-- the loop of `Validate`
unfoldable pub invalid : Names → Names → Names
invalid names [] = []
invalid names (n ∷ activated) =
    let name = trim_left plus minus n in
    let rest = invalid names activated in if elem name names then rest else name ∷ rest

-- `Validate`: the names of the error, if there is one
unfoldable pub validate : Options → Option Names
unfolding invalid
validate o = elim (invalid o.names o.activated) [ [] ↦ none | n ∷ ns ↦ some (n ∷ ns) ]

-- `Simplify`: the loop over the suffixes of a name, from the one of `i` parts and one more on,
-- for as many as are left
unfoldable pub shorten : ℕ → ℕ → List Text → Text → GoMap Text Text → GoMap Text Text
shorten zero i comps n result = result
shorten (suc left) i comps n result =
    let t = join dot (drop (length comps - i - 1) comps) in
    let rest = shorten left (suc i) comps n result in
    elim (lookup t result) [
      | none ↦ insert t n result
      | some old ↦ if old == [] then insert t n result else rest
    ]

-- the body of the loop of `Simplify`
unfoldable pub simplify_one : Text → GoMap Text Text → GoMap Text Text
unfolding shorten
simplify_one n result =
    let comps = split dot n in
    if length comps == 1 then insert n n result else shorten (length comps) 0 comps n result

unfoldable pub simplify_from : Names → GoMap Text Text → GoMap Text Text
unfolding simplify_one
simplify_from [] result = result
simplify_from (n ∷ set) result = simplify_from set (simplify_one n result)

-- `Simplify`
unfoldable pub simplify : Names → GoMap Text Text
unfolding simplify_from
simplify set = simplify_from set []

-- the name that a short name stands for
unfoldable pub resolve : GoMap Text Text → Text → Text
resolve simplified name = elim (lookup name simplified) [ none ↦ name | some n ↦ n ]

-- the list of a group or of all controllers
unfoldable pub list_of : ControllerSet → Text → Option Names
list_of s name =
    let fallback = if name == all_name then s.names else none in
    elim s.groups [
      | none ↦ fallback
      | some g ↦ elim (lookup name g) [ none ↦ fallback | some l ↦ some l ]
    ]

-- a loop over names whose body may run out of fuel
unfoldable pub each : (Text → Names → Option Names) → Names → Names → Option Names
each step [] acc = some acc
each step (n ∷ ns) acc = elim (step n acc) [ none ↦ none | some acc' ↦ each step ns acc' ]

-- `handle`, for a method `h` of the set of the names
unfoldable pub handle :
    ControllerSet
    → GoMap Text Text
    → (Text → Names → Names)
    → ℕ
    → Text
    → Names
    → Names
    → Option Names
unfolding each resolve
handle s simplified h zero name handled names = none
handle s simplified h (suc fuel) name handled names =
    let n = resolve simplified name in
    elim (elem n handled) [
      | true ↦ some names
      | false ↦ elim (list_of s n) [
        | none ↦ some (h n names)
        | some list ↦ each (λ m acc. handle s simplified h fuel m (n ∷ handled) acc) list names
      ]
    ]

-- `set.Add(names...)`
unfoldable pub add_all : Names → Names → Names
add_all [] s = s
add_all (n ∷ ns) s = add_all ns (add n s)

-- the body of the loop of `GetActivation`
unfoldable pub activate : ControllerSet → GoMap Text Text → ℕ → Text → Names → Option Names
unfolding handle
activate s simplified fuel name names =
    if starts_with minus name
    then handle s simplified remove fuel (drop 1 name) [] names
    else if starts_with plus name
    then handle s simplified add fuel (drop 1 name) [] names
    else handle s simplified add fuel name [] names

-- the start of the loop: all names, if the first entry takes some away
unfoldable pub initial : ControllerSet → Names → Names
unfolding add_all entries
initial s [] = []
initial s (name ∷ rest) = if starts_with minus name then add_all (entries s.names) [] else []

-- `GetActivation`
unfoldable pub get_activation : ℕ → Options → Option Names
unfolding activate initial each simplify
get_activation fuel o =
    each (activate o.set (simplify o.names) fuel) o.activated (initial o.set o.activated)
