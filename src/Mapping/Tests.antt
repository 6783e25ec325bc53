-- ===== src/Mapping/Tests.antt =====
-- Tests of the mappings, and the instances of their theorems.
use kubecrtutils.Prelude.{◌≡◌, refl, [], ◌∷◌, some, if◌then◌else◌, ◌==◌}
use kubecrtutils.Prelude.Text.{Text, codes, text_eq}
use kubecrtutils.Maps.{GoMap, lookup, insert}
use kubecrtutils.Maps.Sets.{add}
use kubecrtutils.Mapping.{
  ControllerMappings, Consumer, at_key, map_name, apply_to, overlay_local, overlay_outer,
  apply_mappings, required_clusters, new_consumer, map_names, add_all,
}
use kubecrtutils.Mapping.Compose.{map_name-apply_to}

-- the local name `in` is `main`, and outside `main` is `prod`
abbrev inner : GoMap Text Text
inner = (codes "in", codes "main") ∷ []

abbrev outer : GoMap Text Text
outer = (codes "main", codes "prod") ∷ []

abbrev for_clusters : GoMap Text Text → ControllerMappings
for_clusters m = record { indices = some []; clusters = some m; components = some [] }

composed : map_name (apply_to (some inner) (some outer)) (codes "in") ≡ codes "prod"
unfolding map_name apply_to overlay_local overlay_outer at_key lookup insert
composed = refl

required_prod :
    required_clusters
      (for_clusters inner)
      (new_consumer (codes "in" ∷ []))
      (some (for_clusters outer))
    ≡ codes "prod" ∷ []
unfolding required_clusters new_consumer add_all add apply_mappings map_names map_name apply_to
    overlay_local overlay_outer at_key lookup insert
required_prod = refl

map_name-apply_to_example : map_name (apply_to (some inner) (some outer)) (codes "in") ≡ (
    if at_key outer (codes "in") == []
    then map_name (some outer) (map_name (some inner) (codes "in"))
    else at_key outer (codes "in"))
map_name-apply_to_example =
    map_name-apply_to inner outer (codes "in") (λ e. cc e, tt) (λ e. cc e, tt)

abbrev user : Consumer
user = record { clusters = codes "in" ∷ []; components = [] }
