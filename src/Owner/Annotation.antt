-- ===== src/Owner/Annotation.antt =====
-- owner/anno.go: the owner annotation. `sep` is the separator of `types.NamespacedName`, which is
-- the separator of every annotation type that the package makes.
pub mod RoundTrip
use kubecrtutils.Prelude.{
  ℕ, zero, suc, ◌-◌, Bool, true, false, List, [], ◌∷◌, ◌++◌, Option, none, some, ltb, length, take,
  drop, if◌then◌else◌, ◌==◌, nat_eq,
}
use kubecrtutils.Prelude.Text.{Text, codes, text_eq}
use kubecrtutils.Strings.{split, join}
use kubecrtutils.Maps.{GoMap, lookup, insert, delete}
use kubecrtutils.Kube.{NamespacedName, GroupKind, kind_eq}

abbrev pub default_annotation_name : Text
default_annotation_name = codes "cross-cluster.io/owner-id"

-- `map[string]string`; `nil` and the empty map are told apart by the option
abbrev pub Annotations : Type 0
Annotations = Option (GoMap Text Text)

-- `_AnnotationType`
pub record AnnotationType : Type 0 where
  pub separator : ℕ
  pub name : Text

-- `_Annotation`
pub record Annotation : Type 0 where
  pub name : Text
  pub fields : List Text

-- the results of `Get`: no annotation, an error, an annotation
pub data Found : Type 0 where
  absent : Found
  invalid : Text → Found
  found : Annotation → Found

-- `ClusterMatcher`: the name of a matched cluster, and whether it is the matcher's own
abbrev pub ClusterMatcher : Type 0
ClusterMatcher = Text → Text × Bool

-- `DefaultAnnotationType`, with the name that is given or the default one
unfoldable pub annotation_type : ℕ → Text → AnnotationType
annotation_type sep name = record { separator = sep; name = name }

-- the test on the number of fields, and the result
unfoldable pub checked : AnnotationType → List Text → Found
checked t a =
    if ltb (length a) 4 then invalid t.name else found (record { name = t.name; fields = a })

-- `_AnnotationType.Get`; reading a `nil` map finds nothing
unfoldable pub get : AnnotationType → Annotations → Found
unfolding checked
get t none = absent
get t (some annos) = elim (lookup t.name annos) [
  | none ↦ absent
  | some v ↦ checked t (split t.separator v)
]

-- `CrossNamespaceAnnotation` and `CrossClusterAnnotation`
unfoldable pub cross_namespace : AnnotationType → Text → Text → Text → Text → Annotation
cross_namespace t group kind namespace name = record {
  name = t.name;
  fields = group ∷ kind ∷ namespace ∷ name ∷ [];
}

unfoldable pub cross_cluster : AnnotationType → Text → Text → Text → Text → Text → Annotation
cross_cluster t cluster_id group kind namespace name = record {
  name = t.name;
  fields = cluster_id ∷ group ∷ kind ∷ namespace ∷ name ∷ [];
}

-- `fields[len(fields)-n:]` and `fields[0:len(fields)-n]`
abbrev pub back : ℕ → List Text → List Text
back n fields = drop (length fields - n) fields

abbrev pub front : ℕ → List Text → List Text
front n fields = take (length fields - n) fields

-- `fields[len(fields)-n]`; an annotation has four fields or more
abbrev pub field : ℕ → List Text → Text
field n fields = elim (back n fields) [ [] ↦ [] | f ∷ _ ↦ f ]

-- `ForCluster`
unfoldable pub for_cluster : Text → Annotation → Annotation
for_cluster id a = record { name = a.name; fields = id ∷ back 4 a.fields }

unfoldable pub group : Annotation → Text
group a = field 4 a.fields

unfoldable pub kind : Annotation → Text
kind a = field 3 a.fields

unfoldable pub namespace : Annotation → Text
namespace a = field 2 a.fields

unfoldable pub name : Annotation → Text
name a = field 1 a.fields

-- `GroupKind` and `ObjectKey`
unfoldable pub group_kind : Annotation → GroupKind
group_kind a = record { group = group a; kind = kind a }

unfoldable pub object_key : Annotation → NamespacedName
object_key a = record { namespace = namespace a; name = name a }

module _ (sep : ℕ) where
  -- `String`
  unfoldable pub to_text : Annotation → Text
  to_text a = join sep a.fields

  -- `Put`
  unfoldable pub put : Annotation → Annotations → Annotations
  put a none = some (insert a.name (to_text a) [])
  put a (some m) = some (insert a.name (to_text a) m)

  -- `Remove`
  unfoldable pub remove : Annotation → Annotations → Annotations
  remove a none = none
  remove a (some m) = some (delete a.name m)

  -- `ClusterId`, with the value that the optional arguments give
  unfoldable pub cluster_id : Text → Annotation → Text
  cluster_id default_id a = if length a.fields == 4 then default_id else join sep (front 4 a.fields)

  -- `Match`
  unfoldable pub match : Text → ClusterMatcher → GroupKind → Annotation → Text
  match local_id matcher gk a =
      if group_kind a == gk then (matcher (cluster_id local_id a)).0 else []
