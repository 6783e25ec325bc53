-- ===== src/Replication/Tests.antt =====
-- Tests of the mappings of the replication, and the instances of their theorems.
use kubecrtutils.Prelude.{
  ◌≡◌, inl, refl, true, false, ◌&&◌, [], ◌∷◌, none, some, Option, List, is_some, if◌then◌else◌,
  ◌==◌,
}
use kubecrtutils.Prelude.Text.{Text, codes, text_eq}
use kubecrtutils.Maps.{lookup, insert, delete}
use kubecrtutils.Kube.{NamespacedName, GroupKind, key_eq, kind_eq}
use kubecrtutils.Problem.{temporary_problem}
use kubecrtutils.Replication.{
  Request, Kinds, Lock, NamespaceAnswer, ns_missing, ns_found, DeleteAnswer, deleted, add, remove,
  get, entries_of, replace, set_original, remove_original, get_original, index_of, for_resource,
  locked, assure_namespace, new_resource_index, remove_namespace, empty_elsewhere, last_entry,
}
use kubecrtutils.Replication.Index.{IsTidy, index_stays-IsTidy, set_original_correct}
use kubecrtutils.Replication.Namespaces.{namespace_kept}
use kubecrtutils.Replication.Locking.{Reaches, free, for_resource_locks}

abbrev config_map : GroupKind
config_map = record { group = []; kind = codes "ConfigMap" }

abbrev secret : GroupKind
secret = record { group = []; kind = codes "Secret" }

abbrev key_a : NamespacedName
key_a = record { namespace = codes "ns"; name = codes "a" }

abbrev origin : Request
origin = record { cluster_name = codes "main"; key = key_a }

-- the cluster is the list of its namespaces
abbrev get_ns : Text → List Text → NamespaceAnswer
get_ns n [] = ns_missing
get_ns n (m ∷ ms) = let rest = get_ns n ms in if m == n then ns_found false else rest

abbrev create_ns : Text → List Text → List Text × Option Text
create_ns n ms = (n ∷ ms, none)

abbrev delete_ns : Text → List Text → List Text × DeleteAnswer
delete_ns n ms = ([], deleted)

abbrev one : Kinds
one = (config_map, (codes "ns", (codes "a", origin) ∷ []) ∷ []) ∷ []

set_one :
    set_original get_ns create_ns config_map key_a origin [] [] ≡ (codes "ns" ∷ [], (one, none))
unfolding set_original assure_namespace temporary_problem index_of add entries_of lookup insert
set_one = refl

remove_one :
    remove_original delete_ns config_map key_a one (codes "ns" ∷ [])
    ≡ ([], ((config_map, []) ∷ [], none))
unfolding remove_original remove_namespace empty_elsewhere last_entry index_of remove replace
    entries_of lookup insert delete
remove_one = refl

empty-IsTidy : IsTidy []
unfolding lookup
empty-IsTidy ns e = cc e

index_stays-IsTidy_example : IsTidy (add key_a origin []) × IsTidy (remove key_a [])
index_stays-IsTidy_example = index_stays-IsTidy key_a origin [] empty-IsTidy

set_original_correct_example :
    get_original config_map key_a (set_original get_ns create_ns config_map key_a origin [] []).1.0
    ≡ (if (config_map == config_map) && (key_a == key_a)
        then some origin
        else get_original config_map key_a [])
unfolding set_original assure_namespace temporary_problem
set_original_correct_example =
    (set_original_correct get_ns create_ns config_map config_map key_a key_a origin [] []).0 refl

namespace_kept_example :
    ((remove_original delete_ns secret key_a one (codes "ns" ∷ [])).0 ≡ codes "ns" ∷ [])
    × ((remove_original delete_ns secret key_a one (codes "ns" ∷ [])).1.1 ≡ none)
unfolding get_original get index_of entries_of lookup
namespace_kept_example =
    namespace_kept delete_ns secret config_map key_a (codes "a") one (codes "ns" ∷ []) refl
      (inl (λ e. cc e))

for_resource_locks_example :
    (lookup config_map one ≡ none
      → for_resource config_map one free ≡ some (insert config_map new_resource_index one, free))
    × (is_some (lookup config_map one) ≡ true
        → (l : Lock) × (for_resource config_map one free ≡ some (one, l))
          × ((t : Kinds × Lock) → Reaches (one, l) t → locked true t.1 ≡ none))
for_resource_locks_example = for_resource_locks true config_map one
