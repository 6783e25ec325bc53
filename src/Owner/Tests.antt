-- ===== src/Owner/Tests.antt =====
-- Tests of the owner handler, and the instances of its theorems. The separator is `/`.
use kubecrtutils.Prelude.{
  ◌≡◌, refl, false, [], ◌∷◌, ◌++◌, none, some, Option, if◌then◌else◌, ◌==◌, All,
}
use kubecrtutils.Prelude.Text.{Text, codes, text_eq}
use kubecrtutils.Strings.{Lacks}
use kubecrtutils.Strings.Split.{elem-Lacks}
use kubecrtutils.Kube.{GroupKind}
use kubecrtutils.Keys.{new_typed_key}
use kubecrtutils.Owner.Annotation.{
  Annotation, annotation_type, get, put, cross_namespace, for_cluster, found, ClusterMatcher,
}
use kubecrtutils.Owner.Annotation.RoundTrip.{Says, get-put}
use kubecrtutils.Owner.Handler.{
  Object, Cluster, is_same_as, with_core, set_owner, find_ref, ref_owners, accepted, get_owner,
  get_owners,
}
use kubecrtutils.Owner.Handler.RoundTrip.{home_id, key_of, get-set_owner}

abbrev note : Text
note = codes "owner"

abbrev plain : All (Lacks 47) (codes "apps" ∷ codes "Set" ∷ codes "ns" ∷ codes "x" ∷ [])
plain = (
  elem-Lacks 47 (codes "apps") refl,
  (
    elem-Lacks 47 (codes "Set") refl,
    (elem-Lacks 47 (codes "ns") refl, (elem-Lacks 47 (codes "x") refl, tt)),
  ),
)

get-put_example :
    ((a : Annotation) × (get (annotation_type 47 note) (
          put 47
            (cross_namespace
              (annotation_type 47 note)
              (codes "apps")
              (codes "Set")
              (codes "ns")
              (codes "x"))
            none)
        ≡ found a)
      × Says 47
          (codes "here")
          a
          (codes "here")
          (codes "apps")
          (codes "Set")
          (codes "ns")
          (codes "x"))
    × ((a : Annotation) × (get (annotation_type 47 note) (
            put 47
              (for_cluster (codes "fleet/a") (
                cross_namespace
                  (annotation_type 47 note)
                  (codes "apps")
                  (codes "Set")
                  (codes "ns")
                  (codes "x")))
              none)
          ≡ found a)
        × Says 47
            (codes "here")
            a
            (codes "fleet/a")
            (codes "apps")
            (codes "Set")
            (codes "ns")
            (codes "x"))
get-put_example =
    get-put 47 note (codes "apps") (codes "Set") (codes "ns") (codes "x") none (codes "fleet/a")
      (codes "here") plain

abbrev by_id : Text → Option Text
by_id id = if id == codes "id1" then some (codes "main") else none

abbrev source_cluster : Cluster
source_cluster = record { name = codes "main"; id = codes "id1"; client = 1 }

abbrev target_cluster : Cluster
target_cluster = record { name = codes "data"; id = codes "id2"; client = 2 }

abbrev object : Text → Object
object n = record { namespace = codes "ns"; name = n; annotations = none; owner_refs = [] }

abbrev kind_of : Object → Option GroupKind
kind_of o = some (record { group = codes "apps"; kind = codes "Set" })

abbrev sets : GroupKind
sets = record { group = codes "apps"; kind = codes "Set" }

abbrev no_ref : Object → Object → Option Object
no_ref owner slave = none

abbrev named_group : Text → Text
named_group v = v

abbrev owner_ids : ClusterMatcher
owner_ids id = if id == codes "id1" then (codes "main", false) else ([], false)

get-set_owner_example :
    (s : Object) × (set_owner 47
        (annotation_type 47 note)
        no_ref
        kind_of
        source_cluster
        (object (codes "x"))
        target_cluster
        (object (codes "slave"))
      ≡ some s)
    × (get_owners 47 (annotation_type 47 note) named_group owner_ids (codes "id2") s
        ≡ (if accepted (owner_ids (codes "id2"))
            then ref_owners named_group (owner_ids (codes "id2")).0 (codes "ns") []
            else [])
          ++ (if accepted (
                owner_ids
                  (home_id 47 note no_ref kind_of named_group source_cluster target_cluster))
              then new_typed_key
                  (owner_ids
                    (home_id 47 note no_ref kind_of named_group source_cluster target_cluster)).0
                  (key_of 47 note no_ref kind_of named_group (object (codes "x")))
                  (with_core sets)
                ∷ []
              else []))
    × (find_ref named_group sets [] ≡ none
        → get_owner 47 (annotation_type 47 note) named_group owner_ids target_cluster s sets ≡ (
            if (owner_ids
                (home_id 47 note no_ref kind_of named_group source_cluster target_cluster)).0
              == []
            then none
            else some (
              (owner_ids
                  (home_id 47 note no_ref kind_of named_group source_cluster target_cluster)).0,
              key_of 47 note no_ref kind_of named_group (object (codes "x")),
            )))
unfolding is_same_as with_core
get-set_owner_example =
    get-set_owner 47 note no_ref kind_of named_group source_cluster target_cluster
      (object (codes "x")) (object (codes "slave")) sets owner_ids refl refl plain
