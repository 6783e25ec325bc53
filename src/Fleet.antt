-- ===== src/Fleet.antt =====
-- cluster/fleet/fpi/utils.go, cluster/fleet/alias.go and the lookups of cluster/clusters.go: the names
-- of the clusters of a fleet, which are the name of the fleet and a local name.
mod Tests
pub mod Names
use kubecrtutils.Prelude.{
  ℕ, Bool, true, false, ◌||◌, List, [], ◌∷◌, ◌++◌, Option, none, some, if◌then◌else◌, ◌==◌, elem,
  is_some, ltb, length,
}
use kubecrtutils.Prelude.Text.{Text, codes, text_eq}
use kubecrtutils.Strings.{cut}
use kubecrtutils.Maps.{GoMap, lookup, insert}
use kubecrtutils.Keys.{GlobalKey}
use kubecrtutils.Group.{exists_text}
use mathlib.Core.Option

-- `SEPARATOR`, which is `#`
abbrev pub separator : ℕ
separator = 35

-- `Composer.Compose`
unfoldable pub compose : Text → Text → Text
compose base name = if name == [] then base else base ++ separator ∷ name

-- `Split`
unfoldable pub split_name : Text → Text × Text
split_name name = elim (cut separator name) [ none ↦ ([], name) | some (b, n) ↦ (b, n) ]

-- `Strip`
unfoldable pub strip : Text → Text
strip name = (split_name name).1

-- `Composer.Match`
unfoldable pub match_name : Text → Text → Bool
match_name base name = if base == name then true else (split_name name).0 == base

-- what is looked up: a cluster with its name and id
pub record Cluster : Type 0 where
  pub name : Text
  pub id : Text

-- `Fleet`, by what it finds; a member is looked up by its local name or by its id
pub record Fleet : Type 0 where
  pub name : Text
  pub by_local_name : Text → Option Cluster
  pub by_id : Text → Option Cluster

-- `ClusterEquivalent`, and what `AsFleet` answers
pub record Equivalent : Type 0 where
  pub own : Cluster
  pub as_fleet : Option Fleet

-- `_clusters`; the group is seen through its elements
pub record Clusters : Type 0 where
  pub elements : GoMap Text Equivalent
  pub multi : Bool
  pub disabled : List Text

-- `newClusters`
unfoldable pub new_clusters : Clusters
new_clusters = record { elements = []; multi = false; disabled = [] }

-- a member, which is no fleet
unfoldable pub as_member : Cluster → Equivalent
as_member c = record { own = c; as_fleet = none }

-- `_clusters.Get`
unfoldable pub get_cluster : Text → Clusters → Option Equivalent
get_cluster name c =
    let (b, n) = split_name name in
    if b == [] then lookup n c.elements else elim (lookup b c.elements) [
      | none ↦ none
      | some e ↦ elim e.as_fleet [ none ↦ none | some f ↦ Option.map as_member (f.by_local_name n) ]
    ]

-- `Group.Add`, from the error so far, for elements that are no errors
unfoldable pub add_elements :
    List Equivalent → Option Text → GoMap Text Equivalent → Option Text × GoMap Text Equivalent
add_elements [] err m = (err, m)
add_elements (e ∷ elems) err m = elim (lookup e.own.name m) [
  | some old ↦ add_elements elems (some (exists_text (codes "cluster") e.own.name)) m
  | none ↦ add_elements elems none (insert e.own.name e m)
]

-- the loop over the added elements, for the number of elements of the group
unfoldable pub found_multi : List Equivalent → ℕ → Bool → Bool
found_multi [] len m = m
found_multi (e ∷ elems) len m = found_multi elems len (m || is_some e.as_fleet || ltb 1 len)

-- `_clusters.Add`, behind the `Add` of the group
unfoldable pub added :
    List Equivalent → Clusters → Option Text × GoMap Text Equivalent → Option Text × Clusters
added elems c (some err, m) = (some err, record c { elements = m })
added elems c (none, m) = (
  none,
  record {
    elements = m;
    multi = if c.multi then true else found_multi elems (length m) false;
    disabled = c.disabled;
  },
)

-- `_clusters.Add`
unfoldable pub add_clusters : List Equivalent → Clusters → Option Text × Clusters
add_clusters elems c = added elems c (add_elements elems none c.elements)

-- `_clusters.IsMulti`
unfoldable pub is_multi : Clusters → Bool
is_multi c = c.multi

-- `_clusters.IsDisabled`
unfoldable pub is_disabled : Text → Clusters → Bool
is_disabled name c = elem name c.disabled

-- the loop of `_clusters.GetClusterById`
unfoldable pub by_cluster_id : Text → GoMap Text Equivalent → Option Cluster
by_cluster_id id [] = none
by_cluster_id id ((n, e) ∷ m) =
    let rest = by_cluster_id id m in
    if e.own.id == id then some e.own else elim e.as_fleet [
      | none ↦ rest
      | some f ↦ elim (f.by_id id) [ none ↦ rest | some c ↦ some c ]
    ]

-- `_clusters.GetClusterById`
unfoldable pub get_cluster_by_id : Text → Clusters → Option Cluster
get_cluster_by_id id c = by_cluster_id id c.elements

-- `fleet.NewAlias` and `cluster.NewAlias`. An alias embeds what it stands for, so `AsFleet` of the
-- alias of a fleet is that fleet itself, and `AsCluster` of the alias of a cluster that cluster.
unfoldable pub new_fleet_alias : Text → Equivalent → Fleet → Equivalent
new_fleet_alias name e f =
    if f.name == name
    then record { own = record { name = f.name; id = e.own.id }; as_fleet = some f }
    else record { own = record { name = name; id = e.own.id }; as_fleet = some f }

unfoldable pub new_cluster_alias : Text → Cluster → Equivalent
new_cluster_alias name c =
    if name == c.name
    then record { own = c; as_fleet = none }
    else record { own = record c { name = name }; as_fleet = none }

-- `NewAlias` of cluster/alias.go
unfoldable pub new_alias : Text → Equivalent → Equivalent
new_alias name e =
    if e.own.name == name
    then e
    else elim e.as_fleet [ some f ↦ new_fleet_alias name e f | none ↦ new_cluster_alias name e.own ]

-- `_fleetAlias`: its own name, and the fleet that it stands for
pub record FleetAlias : Type 0 where
  pub alias : Text
  pub target : Fleet

-- `_fleetAlias.Match`, with the `Match` of the fleet
unfoldable pub match_alias : FleetAlias → (Text → Bool) → Text → Bool
match_alias a fleet_match name = match_name a.alias name || fleet_match name

-- `_fleetAlias.GetCluster`, with the name that `GetClusterByLocalName` gives to a member
unfoldable pub get_member : FleetAlias → Text → Option Cluster
get_member a name =
    let (b, n) = split_name name in
    if a.alias == b
    then elim (a.target.by_local_name n) [
      | none ↦ none
      | some c ↦ some (record c { name = compose a.alias n })
    ]
    else none

-- `_fleetAlias.mapNames` on a list of keys, with the name of the effective fleet
unfoldable pub map_key_names : Text → Text → List GlobalKey → List GlobalKey
map_key_names alias eff [] = []
map_key_names alias eff (k ∷ list) =
    let (b, n) = split_name k.cluster_name in
    (if b == eff then record k { cluster_name = compose alias n } else k)
    ∷ map_key_names alias eff list
