-- ===== src/Owner/Handler.antt =====
-- owner/owner.go: setting, removing and reading the owners of an object. `controllerutil`, the
-- scheme and the parser of group versions are not part of the program: they are the parameters
-- `set_ref`, `remove_ref`, `gvk_for` and `group_of`. An operation that fails answers `none`.
pub mod RoundTrip
use kubecrtutils.Prelude.{
  ℕ, Bool, true, false, not, ◌&&◌, ◌||◌, List, [], ◌∷◌, ◌++◌, Option, none, some, if◌then◌else◌,
  ◌==◌, nat_eq,
}
use kubecrtutils.Prelude.Text.{Text, codes, text_eq}
use kubecrtutils.Kube.{NamespacedName, GroupKind, kind_eq}
use kubecrtutils.Keys.{TypedGlobalKey, new_typed_key}
use kubecrtutils.Owner.Annotation.{
  Annotations, AnnotationType, Annotation, absent, invalid, found, ClusterMatcher, get,
  cross_namespace, for_cluster, put, remove, match, cluster_id, object_key, group_kind,
}

-- `metav1.OwnerReference`
pub record OwnerRef : Type 0 where
  pub api_version : Text
  pub kind : Text
  pub name : Text

-- what the handler reads and writes of a `client.Object`
pub record Object : Type 0 where
  pub namespace : Text
  pub name : Text
  pub annotations : Annotations
  pub owner_refs : List OwnerRef

-- `types.Cluster`: its name, its id and the client behind it
pub record Cluster : Type 0 where
  pub name : Text
  pub id : Text
  pub client : ℕ

-- `_cluster.IsSameAs`, of the argument as a cluster; `none` for `nil` and for a fleet
unfoldable pub is_same_as : Cluster → Option Cluster → Bool
is_same_as c none = false
is_same_as c (some o) = c.client == o.client

abbrev pub core : Text
core = codes "core"

-- `if gvk.Group == "" { gvk.Group = "core" }`
unfoldable pub with_core : GroupKind → GroupKind
with_core gk = if gk.group == [] then record gk { group = core } else gk

-- the annotation of an owner, with the cluster id if the clusters differ
unfoldable pub annotation_for : AnnotationType → Cluster → Object → Cluster → GroupKind → Annotation
annotation_for t cluster owner target gvk =
    let gk = with_core gvk in
    let o = cross_namespace t gk.group gk.kind owner.namespace owner.name in
    if not (is_same_as cluster (some target)) then for_cluster cluster.id o else o

module _ (sep : ℕ) (t : AnnotationType) (set_ref : Object → Object → Option Object)
    (gvk_for : Object → Option GroupKind) where
  -- `SetOwner`, with the slave that it leaves
  unfoldable pub set_owner : Cluster → Object → Cluster → Object → Option Object
  set_owner cluster owner target slave =
      if is_same_as cluster (some target) && (owner.namespace == slave.namespace)
      then set_ref owner slave
      else elim (gvk_for owner) [
        | none ↦ none
        | some gvk ↦ some (record slave {
          annotations = put sep (annotation_for t cluster owner target gvk) slave.annotations;
        })
      ]

module _ (sep : ℕ) (t : AnnotationType) (remove_ref : Object → Object → Option Object)
    (gvk_for : Object → Option GroupKind) where
  -- `RemoveOwner`
  unfoldable pub remove_owner : Cluster → Object → Cluster → Object → Option Object
  remove_owner cluster owner target slave =
      if is_same_as cluster (some target) && (owner.namespace == slave.namespace)
      then remove_ref owner slave
      else elim (gvk_for owner) [
        | none ↦ none
        | some gvk ↦ some (record slave {
          annotations = remove sep (annotation_for t cluster owner target gvk) slave.annotations;
        })
      ]

-- `if n != "" || (n == "" && eq)`
unfoldable pub accepted : Text × Bool → Bool
accepted (n, eq) = not (n == []) || ((n == []) && eq)

module _ (group_of : Text → Text) where
  -- the loop over the owner references in `GetOwner`
  unfoldable pub find_ref : GroupKind → List OwnerRef → Option Text
  find_ref kind [] = none
  find_ref kind (r ∷ refs) =
      let rest = find_ref kind refs in
      if not (r.kind == kind.kind)
      then rest
      else if (group_of r.api_version == kind.group)
          || ((kind.group == core) && (group_of r.api_version == []))
      then some r.name
      else rest

  -- the loop over the owner references in `GetOwners`
  unfoldable pub ref_owners : Text → Text → List OwnerRef → List TypedGlobalKey
  ref_owners n namespace [] = []
  ref_owners n namespace (r ∷ refs) =
      let g = group_of r.api_version in
      new_typed_key n (record { namespace = namespace; name = r.name })
        (record { group = if g == [] then core else g; kind = r.kind })
      ∷ ref_owners n namespace refs

module _ (sep : ℕ) (t : AnnotationType) where
  -- the part of `GetOwner` behind the owner references
  unfoldable pub annotated_owner :
      ClusterMatcher → Cluster → Object → GroupKind → Option (Text × NamespacedName)
  annotated_owner cmatch target obj kind = elim (get t obj.annotations) [
    | absent ↦ none
    | invalid n ↦ none
    | found a ↦
        let cname = match sep target.id cmatch (with_core kind) a in
        if cname == [] then none else some (cname, object_key a)
  ]

module _ (sep : ℕ) (t : AnnotationType) (group_of : Text → Text) where
  -- `GetOwner`
  unfoldable pub get_owner :
      ClusterMatcher → Cluster → Object → GroupKind → Option (Text × NamespacedName)
  get_owner cmatch target obj kind =
      elim (if (cmatch target.id).1 then find_ref group_of kind obj.owner_refs else none) [
        | some name ↦ some (target.name, record { namespace = obj.namespace; name = name })
        | none ↦ annotated_owner sep t cmatch target obj kind
      ]

  -- `GetOwners`
  unfoldable pub get_owners : ClusterMatcher → Text → Object → List TypedGlobalKey
  get_owners cmatch target_id obj =
      let result =
        if accepted (cmatch target_id)
        then ref_owners group_of (cmatch target_id).0 obj.namespace obj.owner_refs
        else [] in
      elim (get t obj.annotations) [
        | absent ↦ result
        | invalid n ↦ result
        | found a ↦
            if accepted (cmatch (cluster_id sep target_id a))
            then result
              ++ (new_typed_key (cmatch (cluster_id sep target_id a)).0 (object_key a)
                    (group_kind a)
                  ∷ [])
            else result
      ]
