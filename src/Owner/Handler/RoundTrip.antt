-- ===== src/Owner/Handler/RoundTrip.antt =====
-- The owner that `SetOwner` writes into the annotations is the one that is read back.
use kubecrtutils.Prelude.{
  ℕ, ◌≡◌, refl, false, ◌&&◌, [], ◌∷◌, ◌++◌, Option, none, some, All, arith, if◌then◌else◌, ◌==◌,
  ==_iff, nat_eq, Bool-cases, inl, inr, append-nil,
}
use kubecrtutils.Prelude.Text.{Text, text_eq}
use kubecrtutils.Strings.{Lacks}
use kubecrtutils.Maps.{lookup-delete}
use kubecrtutils.Kube.{NamespacedName, GroupKind, kind_eq}
use kubecrtutils.Keys.{new_typed_key}
use kubecrtutils.Owner.Annotation.{
  Annotations, AnnotationType, Annotation, absent, found, ClusterMatcher, annotation_type, get,
  cross_namespace, for_cluster, put, remove, match, cluster_id, object_key, group_kind, kind,
}
use kubecrtutils.Owner.Annotation.RoundTrip.{get-put}
use kubecrtutils.Owner.Handler.{
  Object, Cluster, is_same_as, with_core, annotation_for, set_owner, remove_owner, find_ref,
  annotated_owner, get_owner, ref_owners, accepted, get_owners,
}

module _ (sep : ℕ) (nm : Text) (change_ref : Object → Object → Option Object)
    (gvk_for : Object → Option GroupKind) (group_of : Text → Text) where
  abbrev t : AnnotationType
  t = annotation_type sep nm

  -- the id of the owner's cluster, as it is read at the object in `target`
  abbrev pub home_id : Cluster → Cluster → Text
  home_id cluster target = if is_same_as cluster (some target) then target.id else cluster.id

  abbrev pub key_of : Object → NamespacedName
  key_of owner = record { namespace = owner.namespace; name = owner.name }

  -- the parts of the annotation hold no separator
  abbrev pub IsPlain : GroupKind → Object → Type 0
  IsPlain gvk owner =
      All (Lacks sep)
        ((with_core gvk).group ∷ (with_core gvk).kind ∷ owner.namespace ∷ owner.name ∷ [])

  get-annotation_for :
      (cluster target : Cluster) (owner : Object) (gvk : GroupKind) (annos : Annotations)
      → IsPlain gvk owner
      → (a : Annotation) × (get t (put sep (annotation_for t cluster owner target gvk) annos)
          ≡ found a)
        × (cluster_id sep target.id a ≡ home_id cluster target)
        × (group_kind a ≡ with_core gvk)
        × (object_key a ≡ key_of owner)
  unfolding annotation_for group_kind object_key
  get-annotation_for cluster target owner gvk annos h =
      let (local, remote) =
        get-put sep nm (with_core gvk).group (with_core gvk).kind owner.namespace owner.name annos
          cluster.id target.id h in
      elim (Bool-cases (is_same_as cluster (some target))) [
        | inl same ↦
            let (a, e, (id, g, k, ns, n)) = local in
            (a, rw same e, rw same id, ground arith, ground arith)
        | inr other ↦
            let (a, e, (id, g, k, ns, n)) = remote in
            (a, rw other e, rw other id, ground arith, ground arith)
      ]

  -- the call takes the way over the annotation
  abbrev pub Crosses : Cluster → Object → Cluster → Object → Type 0
  Crosses cluster owner target slave =
      (is_same_as cluster (some target) && (owner.namespace == slave.namespace)) ≡ false

  -- what `SetOwner` leaves
  set_owner-annotated :
      (cluster target : Cluster) (owner slave : Object) (gvk : GroupKind)
      → Crosses cluster owner target slave
      → gvk_for owner ≡ some gvk
      → set_owner sep t change_ref gvk_for cluster owner target slave
        ≡ some (record slave {
          annotations = put sep (annotation_for t cluster owner target gvk) slave.annotations;
        })
  unfolding set_owner
  set_owner-annotated cluster target owner slave gvk c g = rw c (ground arith)

  -- After `SetOwner` across namespaces or clusters, whatever annotations and owner references the
  -- object had: `GetOwners` lists, behind the owner references, the owner with the cluster name
  -- that the matcher has for the owner's cluster, if it accepts that; and `GetOwner` of the owner's
  -- kind, where no owner reference matches, finds the owner under that name, if it is not empty.
  pub get-set_owner :
      (cluster target : Cluster) (owner slave : Object) (gvk : GroupKind) (cmatch : ClusterMatcher)
      → Crosses cluster owner target slave
      → gvk_for owner ≡ some gvk
      → IsPlain gvk owner
      → (s : Object) × (set_owner sep t change_ref gvk_for cluster owner target slave ≡ some s)
        × (get_owners sep t group_of cmatch target.id s
            ≡ (if accepted (cmatch target.id)
                then ref_owners group_of (cmatch target.id).0 slave.namespace slave.owner_refs
                else [])
              ++ (if accepted (cmatch (home_id cluster target))
                  then new_typed_key
                      (cmatch (home_id cluster target)).0
                      (key_of owner)
                      (with_core gvk)
                    ∷ []
                  else []))
        × (find_ref group_of gvk slave.owner_refs ≡ none
            → get_owner sep t group_of cmatch target s gvk ≡ (
                if (cmatch (home_id cluster target)).0 == []
                then none
                else some ((cmatch (home_id cluster target)).0, key_of owner)))
  get-set_owner cluster target owner slave gvk cmatch c g h =
      let (a, e, id, gk, key) = get-annotation_for cluster target owner gvk slave.annotations h in
      (
        record slave {
          annotations = put sep (annotation_for t cluster owner target gvk) slave.annotations;
        },
        set_owner-annotated cluster target owner slave gvk c g,
        unfold get_owners in
            ground (
              arith,
              append-nil
                  (ref_owners group_of (cmatch target.id).0 slave.namespace slave.owner_refs),
            ),
        λ none_found.
            unfold get_owner annotated_owner match in
            ground (arith, ==_iff (with_core gvk) (with_core gvk)),
      )

  get-remove_for :
      (cluster target : Cluster) (owner : Object) (gvk : GroupKind) (annos : Annotations)
      → get t (remove sep (annotation_for t cluster owner target gvk) annos) ≡ absent
  unfolding get remove annotation_for cross_namespace for_cluster annotation_type
  get-remove_for cluster target owner gvk none = refl
  get-remove_for cluster target owner gvk (some m) =
      elim (Bool-cases (is_same_as cluster (some target))) [
        | inl same ↦ rw same (ground (arith, lookup-delete nm nm m, ==_iff nm nm))
        | inr other ↦ rw other (ground (arith, lookup-delete nm nm m, ==_iff nm nm))
      ]

  -- After `RemoveOwner` across namespaces or clusters the object has no annotated owner: `GetOwners`
  -- lists only the owner references, and `GetOwner` finds nothing where no reference matches.
  pub get-remove_owner :
      (cluster target : Cluster) (owner slave : Object) (gvk kind : GroupKind)
      (cmatch : ClusterMatcher)
      → Crosses cluster owner target slave
      → gvk_for owner ≡ some gvk
      → (s : Object) × (remove_owner sep t change_ref gvk_for cluster owner target slave ≡ some s)
        × (get_owners sep t group_of cmatch target.id s ≡ (
            if accepted (cmatch target.id)
            then ref_owners group_of (cmatch target.id).0 slave.namespace slave.owner_refs
            else []))
        × (find_ref group_of kind slave.owner_refs ≡ none
            → get_owner sep t group_of cmatch target s kind ≡ none)
  get-remove_owner cluster target owner slave gvk kind cmatch c g =
      let gone = get-remove_for cluster target owner gvk slave.annotations in
      (
        record slave {
          annotations = remove sep (annotation_for t cluster owner target gvk) slave.annotations;
        },
        unfold remove_owner in rw c (ground arith),
        unfold get_owners in ground arith,
        λ none_found. unfold get_owner annotated_owner in ground arith,
      )
