-- ===== src/Keys.antt =====
-- types/key.go and the index keys of owner/index.go: global object keys and their texts. The
-- separator and the texts of a namespaced name and of a group kind are those of the Kubernetes
-- libraries, and enter as parameters.
mod Tests
pub mod RoundTrip
use kubecrtutils.Prelude.{
  ℕ, Bool, true, false, not, ◌&&◌, List, [], ◌∷◌, ◌++◌, Option, none, some, if◌then◌else◌, ◌==◌,
}
use kubecrtutils.Prelude.Text.{Text, text_eq}
use kubecrtutils.Strings.{split, starts_with}
use kubecrtutils.Kube.{NamespacedName, GroupKind}

-- `GlobalKey`
pub record GlobalKey : Type 0 where
  pub cluster_name : Text
  pub key : NamespacedName

-- `TypedGlobalKey`
pub record TypedGlobalKey : Type 0 where
  pub cluster_name : Text
  pub key : NamespacedName
  pub group_kind : GroupKind

-- `NewGlobalKey` and `NewGlobalTypedKey`, which is `NewOwner`
unfoldable pub new_global_key : Text → NamespacedName → GlobalKey
new_global_key cluster_name obj = record { cluster_name = cluster_name; key = obj }

unfoldable pub new_typed_key : Text → NamespacedName → GroupKind → TypedGlobalKey
new_typed_key cluster_name obj gk = record {
  cluster_name = cluster_name;
  key = obj;
  group_kind = gk;
}

-- `AsLocalKey` of both
unfoldable pub as_local_key : GlobalKey → GlobalKey
as_local_key o = record o { cluster_name = [] }

unfoldable pub as_local_typed_key : TypedGlobalKey → TypedGlobalKey
as_local_typed_key o = record o { cluster_name = [] }

-- the test on the number of fields of `ParseGlobalKey`, and of `ParseTypedGlobalKey`
unfoldable pub global_key_of : List Text → Option GlobalKey
global_key_of (c ∷ ns ∷ n ∷ []) =
    some (record { cluster_name = c; key = record { namespace = ns; name = n } })
global_key_of _ = none

unfoldable pub typed_key_of : List Text → Option TypedGlobalKey
typed_key_of (c ∷ g ∷ k ∷ ns ∷ n ∷ []) = some (record {
  cluster_name = c;
  key = record { namespace = ns; name = n };
  group_kind = record { group = g; kind = k };
})
typed_key_of _ = none

module _ (sep : ℕ) (key_text : NamespacedName → Text) (kind_text : GroupKind → Text) where
  -- `ParseGlobalKey` and `ParseTypedGlobalKey`
  unfoldable pub parse_global_key : Text → Option GlobalKey
  unfolding global_key_of
  parse_global_key key = global_key_of (split sep key)

  unfoldable pub parse_typed_key : Text → Option TypedGlobalKey
  unfolding typed_key_of
  parse_typed_key key = typed_key_of (split sep key)

  -- `GlobalKey.AsKey`
  unfoldable pub as_key : GlobalKey → Text
  as_key o = (o.cluster_name ++ (sep ∷ [])) ++ key_text o.key

  -- `TypedGlobalKey.AsKey`
  unfoldable pub typed_as_key : Bool → TypedGlobalKey → Text
  typed_as_key use_gk o =
      let key = o.cluster_name ++ (sep ∷ []) in
      (if use_gk && (not (o.group_kind.kind == []) && not (o.group_kind.group == []))
        then key ++ (kind_text o.group_kind ++ (sep ∷ []))
        else key)
      ++ key_text o.key

  -- `NormalizeKeyString`, with the name that the fleet composes for the local cluster
  unfoldable pub normalize_key : Text → Text → Text
  normalize_key composed key = if starts_with sep key then composed ++ key else key

  -- `MapToIndexKey`
  unfoldable pub map_to_index_key : NamespacedName → List GroupKind → Text
  map_to_index_key obj [] = (sep ∷ []) ++ key_text obj
  map_to_index_key obj (gk ∷ gks) = ((sep ∷ []) ++ key_text obj) ++ ((sep ∷ []) ++ kind_text gk)
