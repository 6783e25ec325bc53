-- ===== src/Owner/Matcher.antt =====
-- owner/matcher.go: the cluster matchers. A lookup by id answers with the name of the cluster.
use kubecrtutils.Prelude.{
  ◌≡◌, true, false, ◌&&◌, [], Option, none, some, arith, if◌then◌else◌, ◌==◌, ==_iff,
}
use kubecrtutils.Prelude.Text.{Text, text_eq}
use kubecrtutils.Owner.Annotation.{ClusterMatcher}

-- `MatcherFor`, of a cluster with the id `own_id` and its `GetClusterById`
unfoldable pub matcher_for : Text → (Text → Option Text) → ClusterMatcher
matcher_for own_id by_id cluster_id = elim (by_id cluster_id) [
  | none ↦ ([], false)
  | some name ↦ (name, cluster_id == own_id)
]

-- `LocalMatcher`
unfoldable pub local_matcher : Text → Text → ClusterMatcher
local_matcher local_name local_id id =
    let id' = if id == [] then local_id else id in
    if id' == local_id then (local_name, local_id == id') else ([], false)

-- `MatcherForClusters`, over the `GetClusterById` of the clusters
unfoldable pub matcher_for_clusters : (Text → Option Text) → Text → ClusterMatcher
matcher_for_clusters by_id local_id id =
    let id' = if id == [] then local_id else id in
    if (id == []) && (local_id == [])
    then ([], true)
    else elim (by_id id') [ none ↦ ([], false) | some name ↦ (name, id' == local_id) ]

-- A local matcher accepts the empty id and the local id, answering both with the local name, and
-- no other id. A matcher for clusters that has a local id treats the empty id like the local one;
-- one that has none accepts the empty id, with no name.
pub matcher_ids :
    (local_name local_id id : Text) (by_id : Text → Option Text)
    → (local_matcher local_name local_id id ≡ (
        if id == []
        then (local_name, true)
        else if id == local_id
        then (local_name, true)
        else ([], false)))
      × (matcher_for_clusters by_id local_id []
          ≡ (if local_id == [] then ([], true) else matcher_for_clusters by_id local_id local_id))
unfolding local_matcher matcher_for_clusters
matcher_ids local_name local_id id by_id = (
  ground (arith, ==_iff id [], ==_iff id local_id, ==_iff local_id local_id, ==_iff local_id id),
  ground (arith, ==_iff local_id []),
)
