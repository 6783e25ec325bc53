-- ===== src/ClusterDefs/Create.antt =====
-- cluster/def-cluster.go and cluster/def-fleet.go: `Create` of the two kinds of definitions. The
-- configuration is what the rules answer; `new_cluster`, the type of the fleet and the rules are
-- parameters, as are the texts of wrapped errors.
use kubecrtutils.Prelude.{Bool, Option, none, some, if◌then◌else◌, ◌++◌}
use kubecrtutils.Prelude.Text.{Text, codes}
use kubecrtutils.Fleet.{Equivalent}
use kubecrtutils.ClusterDefs.{Created, create_error, not_configured, created}

-- a pair of a Go value that may be nil and an error
pub record Answer (A : Type 0) : Type 0 where
  pub value : Option A
  pub error : Option Text

-- what the caller of `Create` sees, which tests the error first
unfoldable pub seen : Answer Equivalent → Created
seen a = elim a.error [
  | some e ↦ create_error e
  | none ↦ elim a.value [ none ↦ not_configured | some c ↦ created c ]
]

-- `cluster %s: %w`
unfoldable pub wrapped : Text → Text → Text
wrapped name e = codes "cluster " ++ (name ++ (codes ": " ++ e))

module _ {C : Type 0} (config : Answer C) (name : Text) where
  -- `clusterDef.Create`, where `new_cluster` is `cluster.NewCluster` with the options
  unfoldable pub create_cluster : (C → Answer Equivalent) → Answer Equivalent
  create_cluster new_cluster = elim config.error [
    | some e ↦ record { value = none; error = some (wrapped name e) }
    | none ↦ elim config.value [
      | none ↦ record { value = none; error = none }
      | some cfg ↦ record { value = (new_cluster cfg).value; error = none }
    ]
  ]

  -- `fleetDef.Create`, where `create_fleet` is `Create` of the type
  unfoldable pub create_fleet_def :
      Bool → Text → (C → Answer Equivalent) → (C → Answer Equivalent) → Answer Equivalent
  unfolding create_cluster
  create_fleet_def must_be_fleet type_name create_fleet new_cluster = elim config.error [
    | some e ↦ record { value = none; error = some (wrapped name e) }
    | none ↦ elim config.value [
      | none ↦ record { value = none; error = none }
      | some cfg ↦ elim (create_fleet cfg).error [
        | some e ↦ create_fleet cfg
        | none ↦ elim (create_fleet cfg).value [
          | some c ↦ create_fleet cfg
          | none ↦
              if must_be_fleet
              then record {
                value = none;
                error =
                    some
                      (codes "feet configuration for type \"" ++ (type_name ++ codes "\" missing"));
              }
              else create_cluster new_cluster
        ]
      ]
    ]
  ]
