-- ===== src/Mapping.antt =====
-- mapping/{mapping,base,consumer}.go: the name mappings of controllers and components. A Go map
-- may be `nil`, so `Mappings` is optional; `m[k]` of a missing key is the empty text. The `self`
-- that the configuring methods return is the receiver and carries no state.
mod Tests
pub mod Compose
pub mod Required
use kubecrtutils.Prelude.{
  ◌≡◌, Bool, true, false, ◌&&◌, ◌||◌, List, [], ◌∷◌, Option, none, some, if◌then◌else◌, ◌==◌, elem,
}
use kubecrtutils.Prelude.Text.{Text, text_eq}
use kubecrtutils.Maps.{GoMap, lookup, insert, keys}
use kubecrtutils.Maps.Sets.{add}

abbrev pub Names : Type 0
Names = List Text

-- `Mappings`
abbrev pub Mappings : Type 0
Mappings = Option (GoMap Text Text)

-- `m[local]`
unfoldable pub at_key : GoMap Text Text → Text → Text
at_key m local = elim (lookup local m) [ none ↦ [] | some t ↦ t ]

-- `Mappings.Add`
unfoldable pub set_name : GoMap Text Text → Text → Text → GoMap Text Text
set_name m local tgt = insert local tgt m

-- `Mappings.Map`
unfoldable pub map_name : Mappings → Text → Text
map_name none local = local
map_name (some m) local = if at_key m local == [] then local else at_key m local

-- the loop of `GetMapped`; it runs over the mapping
unfoldable pub map_keys : GoMap Text Text → Names → Names
map_keys m [] = []
map_keys m (n ∷ ns) = add (map_name (some m) n) (map_keys m ns)

-- `Mappings.GetMapped`
unfoldable pub get_mapped : Mappings → Names → Names
unfolding map_keys
get_mapped none set = set
get_mapped (some []) set = set
get_mapped (some (e ∷ m)) set = map_keys (e ∷ m) (keys (e ∷ m))

-- the two loops of `ApplyTo`, over `m` and over `add`
unfoldable pub overlay_local : GoMap Text Text → GoMap Text Text → GoMap Text Text → GoMap Text Text
overlay_local outer [] r = r
overlay_local outer ((local, global) ∷ m) r =
    overlay_local outer m
      (if at_key r local == [] then insert local (map_name (some outer) global) r else r)

unfoldable pub overlay_outer : GoMap Text Text → GoMap Text Text → GoMap Text Text
overlay_outer [] r = r
overlay_outer ((local, global) ∷ m) r =
    overlay_outer m (if at_key r local == [] then insert local global r else r)

-- `Mappings.ApplyTo`
unfoldable pub apply_to : Mappings → Mappings → Mappings
apply_to none outer = outer
apply_to (some m) none = some m
apply_to (some m) (some outer) = some (overlay_outer outer (overlay_local outer m outer))

-- `IdentityMapping`
unfoldable pub identity_mapping : Names → GoMap Text Text
identity_mapping [] = []
identity_mapping (n ∷ ns) = insert n n (identity_mapping ns)

-- What a `ControllerMappings` shows: `_cmappings`, `_mcmappings`, `BaseMappings` and `none` (whose
-- three maps are `nil`).
pub record ControllerMappings : Type 0 where
  pub indices : Mappings
  pub clusters : Mappings
  pub components : Mappings

-- `NoMappings`
unfoldable pub no_mappings : ControllerMappings
no_mappings = record { indices = none; clusters = none; components = none }

-- `DefaultMappings`
unfoldable pub default_mappings : Option ControllerMappings → ControllerMappings
unfolding no_mappings
default_mappings none = no_mappings
default_mappings (some m) = m

-- `newConfigurableMappings` and `NewBaseMappings`
unfoldable pub new_configurable : ControllerMappings
new_configurable = record { indices = some []; clusters = some []; components = some [] }

-- `NewControllerMappings`
unfoldable pub new_controller_mappings : Mappings → ControllerMappings
new_controller_mappings clusters = record {
  indices = some [];
  clusters = elim clusters [ none ↦ some [] | some m ↦ some m ];
  components = some [];
}

-- `len(m) == 0`, also for a `nil` map
unfoldable pub is_empty : Mappings → Bool
is_empty none = true
is_empty (some []) = true
is_empty (some (e ∷ m)) = false

-- `_cmappings.IsNone`, of a pointer that may be `nil`, and its three parts
unfoldable pub is_none : Option ControllerMappings → Bool
unfolding is_empty
is_none none = true
is_none (some d) = is_empty d.indices && (is_empty d.clusters && is_empty d.components)

unfoldable pub is_components_none : Option ControllerMappings → Bool
unfolding is_empty
is_components_none none = true
is_components_none (some d) = is_empty d.components

unfoldable pub is_clusters_none : Option ControllerMappings → Bool
unfolding is_empty
is_clusters_none none = true
is_clusters_none (some d) = is_empty d.clusters

unfoldable pub is_indices_none : Option ControllerMappings → Bool
unfolding is_empty
is_indices_none none = true
is_indices_none (some d) = is_empty d.indices

-- `m[src] = tgt` on a map field; the constructors above leave no map `nil`
unfoldable pub put : Text → Text → Mappings → Mappings
put src tgt none = none
put src tgt (some m) = some (insert src tgt m)

-- `MapIndex`, `MapComponent` and `MapCluster`
unfoldable pub map_index : Text → Text → ControllerMappings → ControllerMappings
map_index src tgt m = record m { indices = put src tgt m.indices }

unfoldable pub map_component : Text → Text → ControllerMappings → ControllerMappings
map_component src tgt m = record m { components = put src tgt m.components }

unfoldable pub map_cluster : Text → Text → ControllerMappings → ControllerMappings
map_cluster src tgt m = record m { clusters = put src tgt m.clusters }

-- a loop `for s, t := range … { d.x[s] = t }` of `UseMappings`
unfoldable pub put_all : GoMap Text Text → Mappings → Mappings
unfolding put
put_all [] m = m
put_all ((s, t) ∷ r) m = put_all r (put s t m)

unfoldable pub use_map : Mappings → Mappings → Mappings
use_map none m = m
use_map (some r) m = put_all r m

-- `UseMappings`
unfoldable pub use_mappings : ControllerMappings → ControllerMappings → ControllerMappings
unfolding use_map
use_mappings src d = record {
  indices = use_map src.indices d.indices;
  clusters = use_map src.clusters d.clusters;
  components = use_map src.components d.components;
}

-- `_cmappings.ApplyTo`
unfoldable pub apply_mappings : ControllerMappings → Option ControllerMappings → ControllerMappings
apply_mappings m none = m
apply_mappings m (some outer) = record {
  indices = apply_to m.indices outer.indices;
  clusters = apply_to m.clusters outer.clusters;
  components = apply_to m.components outer.components;
}

-- `names.Add(mp.Map(n))` for every name
unfoldable pub map_names : Mappings → Names → Names
map_names m [] = []
map_names m (n ∷ ns) = add (map_name m n) (map_names m ns)

-- `DefaultConsumer`, with the fields of the embedded `DefaultClusterConsumer`
pub record Consumer : Type 0 where
  pub clusters : Names
  pub components : Names

unfoldable pub add_all : Names → Names → Names
add_all [] s = s
add_all (n ∷ ns) s = add_all ns (add n s)

-- `NewDefaultClusterConsumer` and `NewDefaultConsumer`
unfoldable pub new_consumer : Names → Consumer
new_consumer names = record { clusters = add_all names []; components = [] }

-- `UseCluster` and `UseComponent`
unfoldable pub use_cluster : Names → Consumer → Consumer
use_cluster names d = record d { clusters = add_all names d.clusters }

unfoldable pub use_component : Names → Consumer → Consumer
use_component names d = record d { components = add_all names d.components }

-- `BaseMappings.GetRequiredClusters` and `GetRequiredComponents`, over the consumer `self`
unfoldable pub required_clusters : ControllerMappings → Consumer → Option ControllerMappings → Names
required_clusters m self outer = map_names (apply_mappings m outer).clusters self.clusters

unfoldable pub required_components :
    ControllerMappings → Consumer → Option ControllerMappings → Names
required_components m self outer = map_names (apply_mappings m outer).components self.components

-- `DefaultClusterConsumer.GetRequiredClusters` and `DefaultConsumer.GetRequiredComponents`
unfoldable pub consumer_clusters : Consumer → Option ControllerMappings → Names
consumer_clusters d m = get_mapped (default_mappings m).clusters d.clusters

unfoldable pub consumer_components : Consumer → Option ControllerMappings → Names
consumer_components d m = get_mapped (default_mappings m).components d.components
