-- ===== src/Lib.antt =====
-- Verification of kubecrtutils, a library for Kubernetes controllers that work with several
-- clusters and fleets of clusters.
--
-- A controller manager is put together from definitions of clusters, components and controllers.
-- Definitions are collected in groups of named elements (Group); a controller names the clusters
-- and components that it uses by local names, which are mapped to global ones (Mapping); the
-- activation constraints are matched against the selected controllers (Constraints), and the
-- components are started in the order of their dependencies (Topo). A running reconciler keeps the
-- owners of its objects across clusters in annotations (Owner, Objects) and finds them by keys
-- (Keys), maps replicated objects to their originals (Replication) and reports its outcome to the
-- controller runtime (Problem). The clusters of a fleet have composed names (Fleet), and the access
-- to a cluster is found by a list of rules (Config).
--
-- Which file models which part, by the paths of the repository:
--   Constraints: controller/constraints. Activation has the three states and the matrices of `Or`
--     and `And`; Context is `_context` with `Closure`, which adds to sets that are passed along and
--     is written with these as its state; Rules has the constraints and their `Match`, one data
--     type with a constructor for each of them.
--   Topo: utils/topo.go, `TopoSort` and `_order`, over any type of elements and identities.
--   Mapping: mapping/mapping.go, mapping/base.go and mapping/consumer.go. `map_name` is
--     `Mappings.Map`, `apply_to` is `Mappings.ApplyTo`.
--   Owner: owner/anno.go (Annotation), owner/owner.go (Handler), owner/matcher.go (Matcher).
--   Keys: types/key.go, and the index keys of owner/index.go.
--   Objects: objutils/annotation.go and objutils/labels.go.
--   Problem: controller/controllerutils/reconcile/problem.go.
--   Group: internal/group.go, internal/definitions.go and internal/element.go.
--   Replication: controller/replication/mapping.go.
--   Fleet: cluster/fleet/fpi/utils.go, cluster/fleet/alias.go, cluster/alias.go and cluster/clusters.go.
--   ClusterDefs: cluster/defs.go, `Validate` with its loops, and `Create` of cluster/def-cluster.go
--     and cluster/def-fleet.go. Every range over a Go map has an order of its own, which is given.
--   ComponentDefs: component/defs.go and the sets of controller/defs.go.
--   ControllerDef: controller/def.go, what a definition of a controller collects, with
--     cacheindex/name.go and the definitions of cacheindex/def.go.
--   ActivationOpts: options/activationopts/options.go.
--   Reconciler: controller/controllerutils/reconciler/request.go, the reconciliation of a request.
--   Enqueue: enqueue/typed_enqueue.go and enqueue/typed_mux.go.
--   Applying: cluster/utils.go, the objects that are written to a cluster.
--   Config: cluster/config, the rules that find the configuration of a cluster.
--   Kube has the Kubernetes structs that are read; Strings, Maps and Prelude are shared.
--
-- A Go string is the list of its bytes, a Go map an association list in which an insert replaces
-- the entry of its key, a Go set the list of its elements, and an `error` is seen through its text
-- or the arguments of its format. Code of other libraries is a parameter: the texts of a namespaced
-- name and of a group kind, `controllerutil`, the scheme, the client of a cluster, the error lists.
--
-- Fuel: `Closure` and `_order` recurse over a graph, and the index of the outer loop of `Disjoint`
-- is set by the inner one. `Closure` gets one more than there are groups (Constraints/Context/Fuel
-- shows that this is enough), `_order` is run with any fuel and needs one more than the nodes of a
-- finite graph (Topo/Ends), and `Disjoint` one round more than its groups
-- (Constraints/Rules/Disjoint). The rounds of `Validate` of the clusters are at most four for each
-- definition and one more (ClusterDefs/Fuel), `handle` of the activation options nests as often as
-- there are groups and twice more (ActivationOpts/Select), and `GetUsedComponents` has two rounds
-- (ComponentDefs/Used).
--
-- Not modelled: the glue to controller-runtime, client-go and the flag library, the caches and
-- indices over informers, the merging of a server-side apply, logging beyond the lines of
-- `Result`, and the examples; these mostly call other libraries. Locks that are held for a whole
-- operation make it one step; only the lock of the replication mappings is a state of its own.
pub mod Prelude
pub mod Maps
pub mod Constraints
pub mod Topo
pub mod Mapping
pub mod Strings
pub mod Kube
pub mod Owner
pub mod Keys
pub mod Objects
pub mod Problem
pub mod Group
pub mod Replication
pub mod Config
pub mod Fleet
pub mod ClusterDefs
pub mod ControllerDef
pub mod Enqueue
pub mod Reconciler
pub mod Applying
pub mod ComponentDefs
pub mod ActivationOpts
