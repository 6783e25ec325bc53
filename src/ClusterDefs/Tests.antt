-- ===== src/ClusterDefs/Tests.antt =====
-- Tests of the cluster definitions, and the instances of their theorems.
use kubecrtutils.Prelude.{
  ◌≡◌, refl, true, false, List, [], ◌∷◌, Option, none, some, if◌then◌else◌, ◌==◌, elem, is_some,
  length, ltb, ◌||◌, ◌⊎◌, arith, Bool-cases, inl, inr, ==_iff, subst, sym, ap, ◌∙◌,
}
use kubecrtutils.Prelude.Text.{Text, codes, text_eq}
use kubecrtutils.Strings.{Lacks, cut}
use kubecrtutils.Strings.Split.{elem-Lacks}
use kubecrtutils.Maps.{lookup, insert}
use kubecrtutils.Maps.Sets.{add}
use kubecrtutils.Group.{report, error_of}
use kubecrtutils.Fleet.{
  separator, Equivalent, Clusters, get_cluster, is_disabled, is_multi, split_name, new_clusters,
  add_clusters, added, add_elements, new_alias, new_cluster_alias, found_multi, new_fleet_alias,
}
use kubecrtutils.ClusterDefs.{
  Definition, created, not_configured, Ranges, Definitions, validate, effective_required,
  default_name, resolve, skipped, wanted, fall_back, set_missing, add_found, conclude, continue,
  disable, each, fail, finish, note_fallback, process, restart, rounds, stop_for, unresolved,
  use_main,
}
use kubecrtutils.ClusterDefs.Covers.{has}
use kubecrtutils.ClusterDefs.Accepted.{validate_covers}
use kubecrtutils.ClusterDefs.Fuel.{validate_returns}
use kubecrtutils.ClusterDefs.Fleets.{validate-IsCounted, validate_fleets, any_fleet}
use kubecrtutils.ClusterDefs.Disabled.{validate_disables}

-- the errors are kept in a list
abbrev note_error : Option Text → List Text → List Text
note_error none l = l
note_error (some e) l = e ∷ l

abbrev wrap_error : Option Text → List Text → Option Text
wrap_error none ctx = none
wrap_error (some e) ctx = some e

abbrev first_error : List Text → Option Text
first_error [] = none
first_error (e ∷ l) = some e

abbrev a : Text
a = codes "a"

abbrev b : Text
b = codes "b"

abbrev cluster_a : Equivalent
cluster_a = record { own = record { name = a; id = a }; as_fleet = none }

abbrev cluster_default : Equivalent
cluster_default = record {
  own = record { name = default_name; id = default_name };
  as_fleet = none;
}

-- `a` has a configuration, and `b` falls back to it
abbrev def_a : Definition
def_a = record { fallback = default_name; accept_fleet = false; create = created cluster_a }

abbrev def_b : Definition
def_b = record { fallback = a; accept_fleet = false; create = not_configured }

abbrev def_main : Definition
def_main = record {
  fallback = default_name;
  accept_fleet = false;
  create = created cluster_default;
}

abbrev defs : Text → Definition
defs n = if n == a then def_a else def_b

abbrev names : List Text
names = b ∷ a ∷ []

abbrev ranges : Ranges
ranges = record { rounds = λ i. b ∷ a ∷ []; check = b ∷ a ∷ []; rest = b ∷ a ∷ [] }

abbrev fresh : Definitions (List Text)
fresh = record { clusters = none; errlist = [] }

-- `b` is an alias of `a`, after two rounds
abbrev made : Clusters
made = record {
  elements =
      (a, cluster_a) ∷ (b, record { own = record { name = b; id = a }; as_fleet = none }) ∷ [];
  multi = true;
  disabled = [];
}

run :
    validate note_error wrap_error first_error defs def_main none [] names none 9 ranges fresh
    ≡ some (none, record { clusters = some made; errlist = [] })
unfolding validate effective_required resolve skipped wanted fall_back set_missing add_found
    conclude continue disable each fail finish note_fallback process restart rounds stop_for
    unresolved use_main get_cluster split_name new_clusters add_clusters added add_elements
    new_alias new_cluster_alias found_multi new_fleet_alias cut lookup insert add report error_of
run = refl

names-Lacks : (k : Text) → elem k names ≡ true → Lacks separator k
names-Lacks k is_in = elim (Bool-cases (b == k)) [
  | inl same ↦ subst (Lacks separator) ((==_iff b k).0 same) (elem-Lacks separator b refl)
  | inr other ↦ elim (Bool-cases (a == k)) [
    | inl same ↦ subst (Lacks separator) ((==_iff a k).0 same) (elem-Lacks separator a refl)
    | inr none_left ↦ absurd (ground (arith, is_in, other, none_left))
  ]
]

made_named :
    (k : Text) (acc : Equivalent)
    → elem k names ≡ true
    → (defs k).create ≡ created acc
    → acc.own.name ≡ k
made_named k acc is_in h = elim (Bool-cases (k == a)) [
  | inl same ↦
      let made_a : cluster_a ≡ acc =
        cc (subst (λ x. (defs x).create ≡ created acc) ((==_iff k a).0 same) h) in
      ap (λ e. e.own.name) (sym made_a) ∙ sym ((==_iff k a).0 same)
  | inr other ↦ absurd (cc (ap (λ z. (if z then def_a else def_b).create) (sym other) ∙ h))
]

main_named : (acc : Equivalent) → def_main.create ≡ created acc → acc.own.name ≡ default_name
main_named acc h =
    let made_default : cluster_default ≡ acc = cc h in ap (λ e. e.own.name) (sym made_default)

validate_returns_example :
    is_some
      (validate note_error wrap_error first_error defs def_main none [] names none 9 ranges fresh)
    ≡ true
validate_returns_example =
    validate_returns note_error wrap_error first_error defs def_main none [] names none ranges fresh
      names-Lacks made_named main_named (λ i k. refl)

validate_covers_example :
    (c : Clusters) × (some made ≡ some c)
    × ((has b c ≡ true) ⊎ (((defs b).fallback ≡ default_name) × (has default_name c ≡ true)))
unfolding effective_required
validate_covers_example =
    validate_covers note_error wrap_error first_error defs def_main none [] names none 9 ranges
      fresh (record { clusters = some made; errlist = [] }) b (λ e ctx h. cc h) names-Lacks
      made_named main_named (λ i k. refl) (λ k. refl) refl refl refl refl run

validate-IsCounted_example :
    is_multi made ≡ (ltb 1 (length made.elements) || any_fleet made.elements)
validate-IsCounted_example =
    validate-IsCounted note_error wrap_error first_error defs def_main none [] names none 9 ranges
      fresh (record { clusters = some made; errlist = [] }) none made (λ i k. refl) refl refl run
      refl

alias_b : Equivalent
alias_b = record { own = record { name = b; id = a }; as_fleet = none }

found_b : get_cluster b made ≡ some alias_b
unfolding get_cluster split_name cut lookup alias_b
found_b = refl

validate_fleets_example : alias_b.as_fleet ≡ none
unfolding effective_required
validate_fleets_example =
    validate_fleets note_error wrap_error first_error defs def_main none [] names none 9 ranges
      fresh (record { clusters = some made; errlist = [] }) none made b alias_b names-Lacks refl
      made_named main_named (λ i k. refl) (λ acc h. absurd (cc h)) refl refl refl refl refl run refl
      found_b

abbrev lone : Text → Definition
lone n = record { fallback = default_name; accept_fleet = false; create = not_configured }

abbrev lone_ranges : Ranges
lone_ranges = record { rounds = λ i. b ∷ []; check = b ∷ []; rest = b ∷ [] }

-- `b` falls back to the default cluster, which is only made then: it gets no alias of it
abbrev only_default : Clusters
only_default = record {
  elements = (default_name, cluster_default) ∷ [];
  multi = false;
  disabled = b ∷ [];
}

run_lone :
    validate note_error wrap_error first_error lone def_main none
      (b ∷ [])
      (b ∷ [])
      none
      5
      lone_ranges
      fresh
    ≡ some (none, record { clusters = some only_default; errlist = [] })
unfolding validate effective_required resolve skipped wanted fall_back set_missing add_found
    conclude continue disable each fail finish note_fallback process restart rounds stop_for
    unresolved use_main get_cluster split_name new_clusters add_clusters added add_elements
    new_alias new_cluster_alias found_multi new_fleet_alias cut lookup insert add report error_of
run_lone = refl

validate_disables_example : is_disabled b only_default ≡ true
unfolding get_cluster split_name cut lookup
validate_disables_example =
    validate_disables note_error wrap_error first_error lone def_main none (b ∷ []) (b ∷ []) none 5
      lone_ranges fresh (record { clusters = some only_default; errlist = [] }) none only_default b
      (λ e ctx h. cc h) (λ i k. refl) (λ k. refl) refl refl run_lone refl
