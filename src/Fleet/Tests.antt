-- ===== src/Fleet/Tests.antt =====
-- Tests of the names of a fleet, and the instances of their theorems.
use kubecrtutils.Prelude.{◌≡◌, refl, [], ◌∷◌, none, some, if◌then◌else◌, ◌==◌, true}
use kubecrtutils.Prelude.Text.{codes, text_eq}
use kubecrtutils.Strings.{cut}
use kubecrtutils.Strings.Split.{elem-Lacks}
use kubecrtutils.Maps.{lookup}
use kubecrtutils.Keys.{GlobalKey}
use kubecrtutils.Fleet.{
  separator, compose, split_name, Fleet, Equivalent, Clusters, get_cluster, strip, as_member,
  new_alias, get_member,
}
use kubecrtutils.Fleet.Names.{get_cluster-compose, get_cluster-new_alias}

abbrev members : Fleet
members = record {
  name = codes "kcp";
  by_local_name =
      λ n. if n == codes "a" then some (record { name = codes "kcp#a"; id = codes "1" }) else none;
  by_id = λ i. none;
}

abbrev kcp : Equivalent
kcp = record { own = record { name = codes "kcp"; id = codes "0" }; as_fleet = some members }

abbrev known : Clusters
known = record { elements = (codes "kcp", kcp) ∷ []; multi = true; disabled = [] }

stripped : strip (codes "kcp#a") ≡ codes "a"
unfolding strip split_name cut
stripped = refl

get_cluster-compose_example :
    get_cluster (compose (codes "kcp") (codes "a")) known
    ≡ some (as_member (record { name = codes "kcp#a"; id = codes "1" }))
unfolding lookup
get_cluster-compose_example =
    get_cluster-compose (codes "kcp") (codes "a") kcp members known
      (elem-Lacks separator (codes "kcp") refl) (λ e. cc e) (λ e. cc e) refl refl

abbrev key : GlobalKey
key = record { cluster_name = []; key = record { namespace = codes "ns"; name = codes "x" } }

abbrev aliased : Clusters
aliased = record {
  elements = (codes "x", new_alias (codes "x") kcp) ∷ [];
  multi = true;
  disabled = [];
}

get_cluster-new_alias_example :
    (get_cluster (compose (codes "x") (codes "a")) aliased
      ≡ some (as_member (record { name = codes "kcp#a"; id = codes "1" })))
    × (get_member (record { alias = codes "x"; target = members }) (compose (codes "x") (codes "a"))
        ≡ some (record { name = compose (codes "x") (codes "a"); id = codes "1" }))
unfolding lookup
get_cluster-new_alias_example =
    get_cluster-new_alias (codes "x") (codes "a") kcp members
      (record { name = codes "kcp#a"; id = codes "1" }) aliased
      (elem-Lacks separator (codes "x") refl) (λ e. cc e) (λ e. cc e) refl refl refl
