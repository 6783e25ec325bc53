-- ===== src/Keys/Tests.antt =====
-- Tests of the keys, and the instances of their theorems. The separator is `/`.
use kubecrtutils.Prelude.{◌≡◌, ◌≢◌, refl, true, [], ◌∷◌, ◌++◌, some}
use kubecrtutils.Prelude.Text.{Text, codes, text_eq}
use kubecrtutils.Strings.Split.{elem-Lacks}
use kubecrtutils.Kube.{NamespacedName, GroupKind}
use kubecrtutils.Keys.{
  GlobalKey, TypedGlobalKey, as_key, typed_as_key, parse_global_key, map_to_index_key,
}
use kubecrtutils.Keys.RoundTrip.{parse-as_key, index_keys}

abbrev key_text : NamespacedName → Text
key_text k = k.namespace ++ (47 ∷ k.name)

abbrev kind_text : GroupKind → Text
kind_text k = k.kind ++ (46 ∷ k.group)

abbrev key : NamespacedName
key = record { namespace = codes "ns"; name = codes "x" }

abbrev deployment : GroupKind
deployment = record { group = codes "apps"; kind = codes "Deployment" }

abbrev global : GlobalKey
global = record { cluster_name = codes "main"; key = key }

abbrev typed : TypedGlobalKey
typed = record { cluster_name = codes "main"; key = key; group_kind = deployment }

parse-as_key_example :
    parse_global_key 47 key_text kind_text (as_key 47 key_text kind_text global) ≡ some global
parse-as_key_example =
    parse-as_key 47 key_text kind_text (λ k. refl) global
      (
        elem-Lacks 47 (codes "main") refl,
        (elem-Lacks 47 (codes "ns") refl, (elem-Lacks 47 (codes "x") refl, tt)),
      )

index_keys_differ :
    map_to_index_key 47 key_text kind_text key (deployment ∷ [])
    ≢ typed_as_key 47 key_text kind_text true
        (record { cluster_name = []; key = key; group_kind = deployment })
index_keys_differ =
    (index_keys 47 key_text kind_text (λ k. refl) key deployment).1 (λ e. cc e) (λ e. cc e)
      (
        elem-Lacks 47 (codes "Deployment.apps") refl,
        (elem-Lacks 47 (codes "ns") refl, (elem-Lacks 47 (codes "x") refl, tt)),
      )
      (λ e. cc e)
