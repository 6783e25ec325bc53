-- ===== src/ControllerDef.antt =====
-- controller/def.go with cacheindex/name.go and the definitions of cacheindex/def.go: what the definition of a
-- controller collects. An index is seen through its name and its target; the groups of indices
-- get only names that none of them has, so that their own errors never arise. The error list and
-- `errors.Wrap` come from another library, as for the groups.
mod Tests
pub mod Unique
use kubecrtutils.Prelude.{
  ℕ, Bool, true, false, not, ◌&&◌, ◌||◌, List, [], ◌∷◌, ◌++◌, Option, none, some, if◌then◌else◌,
  ◌==◌, elem, is_some,
}
use kubecrtutils.Prelude.Text.{Text, codes, text_eq}
use kubecrtutils.Strings.{split}
use kubecrtutils.Maps.{GoMap, lookup, insert}
use kubecrtutils.Group.{is_error, other, report}
use kubecrtutils.Mapping.{Consumer, Names, new_consumer, use_cluster, use_component, add_all}

-- the byte of `:`
abbrev pub colon : ℕ
colon = 58

-- `ComposeName`, `SplitName`, `BaseName` and `ClusterName`
unfoldable pub compose_name : Text → Text → Text
compose_name name cluster = name ++ colon ∷ cluster

unfoldable pub two_fields : List Text → Text × Text
two_fields [] = ([], [])
two_fields (n ∷ []) = (n, [])
two_fields (n ∷ c ∷ rest) = (n, c)

unfoldable pub split_index : Text → Text × Text
unfolding two_fields
split_index name = two_fields (split colon name)

unfoldable pub base_name : Text → Text
base_name name = (split_index name).0

unfoldable pub cluster_name : Text → Text
cluster_name name = (split_index name).1

-- a definition of an index, or a reference to one
pub record Index : Type 0 where
  pub name : Text
  pub target : Text

-- `cacheindex.Define` and `cacheindex.Ref`, by the name and the target
unfoldable pub define_index : Text → Text → Index
unfolding compose_name
define_index name target = record { name = compose_name name target; target = target }

-- `_definition`, without what it only hands on
pub record Definition (L : Type 0) : Type 0 where
  pub name : Text
  pub cluster : Text
  pub consumer : Consumer
  pub indices : GoMap Text Index
  pub imports : GoMap Text Index
  pub foreign : GoMap Text Index
  pub triggers : List Text
  pub groups : Names
  pub finalizer : Text
  pub errlist : L

-- `Define`, with the new error list
unfoldable pub define : {L : Type 0} → Text → Text → L → Definition L
define name cluster l = record {
  name = name;
  cluster = cluster;
  consumer = use_cluster (cluster ∷ []) (new_consumer []);
  indices = [];
  imports = [];
  foreign = [];
  triggers = [];
  groups = [];
  finalizer = [];
  errlist = l;
}

-- one of the three groups has an index of the name
unfoldable pub taken : {L : Type 0} → Text → Definition L → Bool
taken n d =
    is_some (lookup n d.indices) || (is_some (lookup n d.imports) || is_some (lookup n d.foreign))

-- the texts of the errors
unfoldable pub duplicate : Text → Text
duplicate n = codes "duplicate definition of index \"" ++ (n ++ codes "\"")

unfoldable pub duplicate_in : Text → Text → Text
duplicate_in name n =
    codes "duplicate definition of index \"" ++ (name ++ (codes "\"[" ++ (n ++ codes "]")))

unfoldable pub duplicate_import : Text → Text
duplicate_import n = codes "duplicate dedinition of index \"" ++ (n ++ codes "\"")

module _ {L : Type 0} (add_error : Option Text → L → L)
    (wrap : Option Text → List Text → Option Text) where
  -- `AddError` of an error, and of an index, which is none
  unfoldable pub complain : Text → Definition L → Definition L
  complain e d = record d { errlist = (report add_error wrap (is_error e) [] d.errlist).1 }

  unfoldable pub check_index : Text → Definition L → Definition L
  check_index name d = record d {
    errlist = (report add_error wrap other (codes "index " ∷ name ∷ []) d.errlist).1;
  }

  -- `AddForeignIndex`
  unfoldable pub add_foreign : List Index → Definition L → Definition L
  unfolding complain
  add_foreign [] d = d
  add_foreign (i ∷ indices) d = add_foreign indices (
      if taken i.name d
      then complain (duplicate i.name) d
      else record d { foreign = insert i.name i d.foreign })

  -- `AddIndex` and `AddIndexByFactory`, which differ in the indexer only
  unfoldable pub add_index : Text → Definition L → Definition L
  unfolding complain check_index define_index
  add_index name d =
      let n = compose_name name d.cluster in
      let i = define_index name d.cluster in
      if taken n d
      then complain (duplicate_in name n) d
      else check_index name (record d {
        indices = insert i.name i d.indices;
        consumer = use_cluster (i.target ∷ []) d.consumer;
      })

  -- `ImportIndex`
  unfoldable pub import_index : Index → Definition L → Definition L
  unfolding complain check_index
  import_index i d =
      if taken i.name d
      then complain (duplicate_import i.name) d
      else check_index i.name (record d { imports = insert i.name i d.imports })

  -- `AddTrigger`, by the clusters of the triggers
  unfoldable pub add_trigger : List Text → Definition L → Definition L
  add_trigger [] d = d
  add_trigger (t ∷ triggers) d = add_trigger triggers (record d {
    triggers = d.triggers ++ t ∷ [];
    consumer = if t == [] then d.consumer else use_cluster (t ∷ []) d.consumer;
  })

  -- `InGroup`, `WithFinalizer`, `UseCluster` and `UseComponent`
  unfoldable pub in_group : Names → Definition L → Definition L
  in_group group d = record d { groups = add_all group d.groups }

  unfoldable pub with_finalizer : Text → Definition L → Definition L
  with_finalizer s d = record d { finalizer = s }

  unfoldable pub use_clusters : Names → Definition L → Definition L
  use_clusters names d = record d { consumer = use_cluster names d.consumer }

  unfoldable pub use_components : Names → Definition L → Definition L
  use_components names d = record d { consumer = use_component names d.consumer }

-- `GetFinalizer`
unfoldable pub get_finalizer : {L : Type 0} → Definition L → Text
get_finalizer d = if d.finalizer == [] then d.name else d.finalizer

-- the loop of `Validate` for a reconciler that validates nothing itself: the first foreign index
-- whose target is not declared
unfoldable pub undeclared : Names → GoMap Text Index → Option Index
undeclared clusters [] = none
undeclared clusters ((n, i) ∷ foreign) =
    let rest = undeclared clusters foreign in if elem i.target clusters then rest else some i
