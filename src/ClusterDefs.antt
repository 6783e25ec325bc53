-- ===== src/ClusterDefs.antt =====
-- cluster/defs.go with cluster/def.go, cluster/def-cluster.go and cluster/def-fleet.go: the
-- definitions of the logical clusters, and how `Validate` makes the clusters of them. A Go map is
-- ranged over in an order of its own each time: `Ranges` holds the orders. The error list and
-- `errors.Wrap` come from another library, as for the groups.
mod Tests
pub mod Create
pub mod Steps
pub mod Loops
pub mod Covers
pub mod Accepted
pub mod Ends
pub mod Fuel
pub mod Kept
pub mod Fleets
pub mod Disabled
use kubecrtutils.Prelude.{
  ℕ, zero, suc, ◌+◌, Bool, true, false, not, ◌&&◌, ◌||◌, List, [], ◌∷◌, ◌++◌, Option, none, some,
  if◌then◌else◌, ◌==◌, elem, is_some,
}
use kubecrtutils.Prelude.Text.{Text, codes, text_eq}
use kubecrtutils.Maps.Sets.{add}
use kubecrtutils.Fleet.{Equivalent, Clusters, new_clusters, get_cluster, add_clusters, new_alias}
use kubecrtutils.Group.{is_error, report}

-- `DEFAULT`
abbrev pub default_name : Text
default_name = codes "default"

-- what `Create` answers: an error, neither an error nor a cluster, or a cluster
pub data Created : Type 0 where
  create_error : Text → Created
  not_configured : Created
  created : Equivalent → Created

-- `Definition`, by what `Validate` asks it for
pub record Definition : Type 0 where
  pub fallback : Text
  pub accept_fleet : Bool
  pub create : Created

-- the orders of the ranges over the elements: of each round, of the search for what is missing, and
-- of the last one
pub record Ranges : Type 0 where
  pub rounds : ℕ → List Text
  pub check : List Text
  pub rest : List Text

-- what `Validate` works on: its variables and the clusters
pub record State : Type 0 where
  pub clusters : Clusters
  pub intermediate : List Text
  pub missing : Bool
  pub found : Bool

-- the rest of the body runs, `Validate` returns an error that it hands to `AddError` with its context, it
-- returns an error that it only makes, or the rounds have no end yet
pub data Progress : Type 0 where
  going : State → Progress
  reported : Text → List Text → State → Progress
  refused : Text → State → Progress
  out_of_fuel : Progress

-- the code behind a part of the body
unfoldable pub continue : Progress → (State → Progress) → Progress
continue (going s) f = f s
continue (reported e ctx s) f = reported e ctx s
continue (refused e s) f = refused e s
continue out_of_fuel f = out_of_fuel

-- the two variables at the start of a round
unfoldable pub restart : State → State
restart s = record s { missing = false; found = false }

-- `d.clusters.Add`, whose error is dropped, and `found = true`
unfoldable pub add_found : Equivalent → State → State
add_found e s = record s { clusters = (add_clusters (e ∷ []) s.clusters).1; found = true }

unfoldable pub set_missing : State → State
set_missing s = record s { missing = true }

-- the context of the errors of a cluster
unfoldable pub cluster_context : Text → List Text
cluster_context n = codes "cluster " ∷ n ∷ []

-- the error about a fleet that is not accepted; the names need no escape
unfoldable pub refusal : Text → Text → Text
refusal fb n =
    codes "fallback \""
    ++ (fb
        ++ (codes "\" for cluster \""
            ++ (n ++ codes "\" is fleet, but no fleet accepted for this logical cluster")))

-- the error about a name that has no cluster
unfoldable pub stop_for : Option Text → State → Progress
stop_for (some n) s = reported (codes "kubeconfig required") (cluster_context n) s
stop_for none s = going s

-- `definition` is an element by its name, `main` the definition of the default cluster,
-- `main_error` the answer of the validation of it, and `required` the names that are asked for
module _ (definition : Text → Definition) (main : Definition) (main_error : Option Text)
    (required : List Text) where
  -- a name is of use
  unfoldable pub wanted : Text → State → Bool
  wanted n s = elem n required || elem n s.intermediate

  -- the guard of both loops
  unfoldable pub skipped : Text → State → Bool
  skipped n s = is_some (get_cluster n s.clusters) || not (wanted n s)

  -- an unknown fallback becomes an intermediate name
  unfoldable pub note_fallback : Text → State → State
  note_fallback fb s =
      if not (elem fb s.intermediate) && not (elem fb required)
      then record s { intermediate = add fb s.intermediate; found = true }
      else s

  -- the default cluster is made on demand
  unfoldable pub use_main : State → Progress
  use_main s = elim main_error [
    | some e ↦ reported e (cluster_context default_name) s
    | none ↦ elim main.create [
      | create_error e ↦ reported e (cluster_context default_name) s
      | created acc ↦ going (add_found acc s)
      | not_configured ↦ going (set_missing s)
    ]
  ]

  -- the part behind `GetFallback`
  unfoldable pub fall_back : Text → State → Progress
  unfolding note_fallback
  fall_back n s =
      let fb = (definition n).fallback in
      if fb == [] then going (set_missing s) else elim (get_cluster fb s.clusters) [
        | some eff ↦
            if not (definition n).accept_fleet && is_some eff.as_fleet && elem n required
            then refused (refusal fb n) s
            else going (add_found (new_alias n eff) s)
        | none ↦
            if fb == default_name
            then use_main (note_fallback fb s)
            else going (set_missing (note_fallback fb s))
      ]

  -- the body of the inner loop
  unfoldable pub process : Text → State → Progress
  process n s = if skipped n s then going s else elim (definition n).create [
    | create_error e ↦ reported e (cluster_context n) s
    | created acc ↦ going (add_found acc s)
    | not_configured ↦ fall_back n s
  ]

  -- the inner loop
  unfoldable pub each : List Text → State → Progress
  unfolding process continue
  each [] s = going s
  each (n ∷ names) s = continue (process n s) (each names)

  -- the outer loop from its i-th round on, behind its test
  unfoldable pub rounds : (ℕ → List Text) → ℕ → ℕ → State → Progress
  unfolding each continue restart
  rounds order zero i s = out_of_fuel
  rounds order (suc fuel) i s =
      continue (each (order i) (restart s))
        (λ t. elim (t.missing && t.found) [ true ↦ rounds order fuel (suc i) t | false ↦ going t ])

  -- the loop that looks for a name without a cluster
  unfoldable pub unresolved : List Text → State → Option Text
  unresolved [] s = none
  unresolved (n ∷ names) s = let rest = unresolved names s in if skipped n s then rest else some n

  -- the part from `if missing` on
  unfoldable pub conclude : List Text → State → Progress
  unfolding unresolved stop_for
  conclude names s = stop_for (if s.missing then unresolved names s else none) s

  -- from `newClusters` to the names that are disabled
  unfoldable pub resolve : ℕ → Ranges → Progress
  unfolding rounds conclude continue
  resolve fuel r =
      continue
        (rounds r.rounds fuel 0
          (record { clusters = new_clusters; intermediate = []; missing = true; found = true }))
        (conclude r.check)

-- the last range: the names without a cluster are disabled
unfoldable pub disable : List Text → Clusters → Clusters
disable [] c = c
disable (n ∷ names) c =
    disable names
      (if is_some (get_cluster n c) then c else record c { disabled = add n c.disabled })

-- `definitions`, by what `Validate` changes
pub record Definitions (L : Type 0) : Type 0 where
  pub clusters : Option Clusters
  pub errlist : L

-- what `GetUsed` found, or all names
unfoldable pub effective_required : List Text → List Text → List Text
effective_required [] names = names
effective_required (n ∷ used) names = n ∷ used

module _ {L : Type 0} (add_error : Option Text → L → L)
    (wrap : Option Text → List Text → Option Text) (get_error : L → Option Text) where
  -- `AddError` of an error, behind which `Validate` returns
  unfoldable pub fail : Text → List Text → Option Clusters → L → Option Text × Definitions L
  fail e ctx c l =
      let (err, errs) = report add_error wrap (is_error e) ctx l in
      (err, record { clusters = c; errlist = errs })

  -- what is kept of the work, and what `Validate` returns; `none` when the fuel did not do
  unfoldable pub finish : List Text → L → Progress → Option (Option Text × Definitions L)
  finish rest l (going s) =
      some (get_error l, record { clusters = some (disable rest s.clusters); errlist = l })
  finish rest l (reported e ctx s) = some (fail e ctx (some s.clusters) l)
  finish rest l (refused e s) = some (some e, record { clusters = some s.clusters; errlist = l })
  finish rest l out_of_fuel = none

  -- `Validate`, with the names that `GetUsed` finds, those of the definitions, and the answer of
  -- `ValidateSet`
  unfoldable pub validate :
      (Text → Definition)
      → Definition
      → Option Text
      → List Text
      → List Text
      → Option Text
      → ℕ
      → Ranges
      → Definitions L
      → Option (Option Text × Definitions L)
  unfolding finish fail
  validate definition main main_error used names set_error fuel r d =
      if is_some d.clusters || is_some (get_error d.errlist)
      then some (get_error d.errlist, d)
      else elim set_error [
        | some e ↦ some (fail e (codes "validation" ∷ []) d.clusters d.errlist)
        | none ↦
            finish r.rest d.errlist
              (resolve definition main main_error (effective_required used names) fuel r)
      ]
