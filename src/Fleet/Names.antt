-- ===== src/Fleet/Names.antt =====
-- The names of the members of a fleet are composed and split again.
use kubecrtutils.Prelude.{
  ◌≡◌, ◌≢◌, refl, ap, true, List, [], ◌∷◌, ◌++◌, some, ==_iff, nat_eq, arith, ==_self, Bool-cases,
  Option-cases, inl, inr, ◌==◌, ◌∙◌,
}
use kubecrtutils.Prelude.Text.{Text, text_eq}
use kubecrtutils.Strings.{cut, Lacks}
use kubecrtutils.Maps.{lookup}
use kubecrtutils.Keys.{GlobalKey}
use mathlib.Core.Option
use kubecrtutils.Fleet.{
  separator, compose, split_name, match_name, Fleet, Equivalent, Clusters, get_cluster, as_member,
  new_alias, new_fleet_alias, new_cluster_alias, Cluster, get_member, map_key_names,
}

cut-append :
    (base n : Text) → Lacks separator base → cut separator (base ++ separator ∷ n) ≡ some (base, n)
unfolding cut
cut-append [] n h = refl
cut-append (c ∷ base) n (ne, h) = ground (arith, cut-append base n h, ==_iff c separator)

split_name-compose :
    (base n : Text) → Lacks separator base → n ≢ [] → split_name (compose base n) ≡ (base, n)
unfolding split_name compose
split_name-compose base n h ne = ground (arith, cut-append base n h, ==_iff n [])

-- an alias is a fleet exactly if what it stands for is one
pub as_fleet-new_alias : (n : Text) (e : Equivalent) → (new_alias n e).as_fleet ≡ e.as_fleet
unfolding new_alias new_fleet_alias new_cluster_alias
as_fleet-new_alias n e = elim (Bool-cases (e.own.name == n)) [
  | inl same ↦ rw (new_alias, same) refl
  | inr other ↦ elim (Option-cases e.as_fleet) [
    | inl nothing ↦ rw (new_alias, other, nothing) (ground arith)
    | inr (f, is_fleet) ↦ rw (new_alias, other, is_fleet) (ground arith)
  ]
]

-- A member of a fleet is found under its composed name: `Get` of the name composed from the name of
-- a fleet in the group and a local name is what the fleet finds under the local name. (The name of
-- the fleet holds no separator, and neither name is empty.)
pub get_cluster-compose :
    (base n : Text) (e : Equivalent) (f : Fleet) (c : Clusters)
    → Lacks separator base
    → base ≢ []
    → n ≢ []
    → lookup base c.elements ≡ some e
    → e.as_fleet ≡ some f
    → get_cluster (compose base n) c ≡ Option.map as_member (f.by_local_name n)
unfolding get_cluster
get_cluster-compose base n e f c h nb nn found is_fleet = rw (split_name-compose base n h nn) (
    ground (
      arith,
      ==_iff base [],
      ap (λ (q : Text × Text). Option.map as_member (f.by_local_name q.1))
          (split_name-compose base n h nn),
    ))

-- `Get` sees through the alias of a fleet: the member that is found under the name of the alias is
-- that of the effective fleet, under the name it has there, and not the one that `GetCluster` of the
-- alias shows. (The names are not empty, and that of the alias holds no separator.)
pub get_cluster-new_alias :
    (alias n : Text) (e : Equivalent) (f : Fleet) (k : Cluster) (c : Clusters)
    → Lacks separator alias
    → alias ≢ []
    → n ≢ []
    → lookup alias c.elements ≡ some (new_alias alias e)
    → e.as_fleet ≡ some f
    → f.by_local_name n ≡ some k
    → (get_cluster (compose alias n) c ≡ some (as_member k))
      × (get_member (record { alias = alias; target = f }) (compose alias n)
          ≡ some (record k { name = compose alias n }))
unfolding get_member
get_cluster-new_alias alias n e f k c h nb nn found is_fleet member = (
  get_cluster-compose alias n (new_alias alias e) f c h nb nn found
        (as_fleet-new_alias alias e ∙ is_fleet)
      ∙ ap (Option.map as_member) member,
  rw (get_member, split_name-compose alias n h nn, member, ==_self alias)
      (ap (λ (q : Text × Text). some (record k { name = compose alias q.1 }))
        (split_name-compose alias n h nn)),
)

-- An alias of a fleet shows its members under the name of the alias, in keys of the effective fleet
-- and in no others, and it matches the names that it shows.
pub map_key_names-compose :
    (alias eff n : Text) (k : GlobalKey) (list : List GlobalKey)
    → Lacks separator eff
    → Lacks separator alias
    → n ≢ []
    → (map_key_names alias eff (record k { cluster_name = compose eff n } ∷ list)
        ≡ record k { cluster_name = compose alias n } ∷ map_key_names alias eff list)
      × (match_name alias (compose alias n) ≡ true)
unfolding map_key_names match_name
map_key_names-compose alias eff n k list h ha ne = (
  rw (split_name-compose eff n h ne) (ground (arith, ==_iff eff eff)),
  rw (split_name-compose alias n ha ne) (ground (arith, ==_iff alias alias)),
)
