-- ===== src/Problem.antt =====
-- controller/controllerutils/reconcile/problem.go: the outcome of a reconciliation, and what the
-- controller runtime is told about it. An `error` is seen through its text; `nil` is `none`.
-- The formatting constructors (`Requeuef` and the like) are the plain ones behind `fmt.Errorf`.
mod Tests
pub mod Retries
pub mod Aggregate
use kubecrtutils.Prelude.{
  ℕ, zero, ◌≡◌, Bool, true, false, not, ◌&&◌, ◌||◌, List, [], ◌∷◌, ◌++◌, Option, none, some,
  if◌then◌else◌, is_some,
}
use kubecrtutils.Prelude.Text.{Text, codes}

-- `problem`
pub record Problem : Type 0 where
  pub requeue : Bool
  pub problem : Option Text
  pub err : Option Text

-- `Succeeded`
unfoldable pub succeeded : Option Problem
succeeded = none

-- `Requeue`
unfoldable pub requeue_of : Option Text → Option Problem
requeue_of none = none
requeue_of (some e) = some (record { requeue = true; problem = some e; err = none })

-- `Failed`
unfoldable pub failed : Option Text → Option Problem
failed e = some (record { requeue = false; problem = none; err = e })

-- `TemporaryProblem`
unfoldable pub temporary_problem : Option Text → Option Problem
temporary_problem none = none
temporary_problem (some e) = some (record { requeue = true; problem = none; err = some e })

-- `WatchBackedProblem`
unfoldable pub watch_backed_problem : Option Text → Option Problem
watch_backed_problem none = none
watch_backed_problem (some e) = some (record { requeue = false; problem = some e; err = none })

-- `String`
unfoldable pub to_text : Problem → Text
to_text p = elim p.err [
  | some e ↦ elim p.problem [
    | some q ↦ codes "reconciliation error: " ++ (e ++ (codes "; auto healing problem: " ++ q))
    | none ↦ codes "reconciliation error: " ++ e
  ]
  | none ↦ elim p.problem [
    | some q ↦
        if p.requeue then codes "backoff problem: " ++ q else codes "triggerable problem: " ++ q
    | none ↦ codes "no reconciliation problem"
  ]
]

-- `Message`
unfoldable pub message : Problem → Text
message p = elim p.err [
  | some e ↦ elim p.problem [ some q ↦ e ++ (codes "; " ++ q) | none ↦ e ]
  | none ↦ elim p.problem [ some q ↦ q | none ↦ codes "no problem" ]
]

-- `errors.Join` of two errors: the texts of those that are not `nil`, on lines of their own
unfoldable pub join_errors : Option Text → Option Text → Option Text
join_errors none b = b
join_errors (some a) none = some a
join_errors (some a) (some b) = some (a ++ (10 ∷ b))

-- the loop of `AggregateProblem` over `result` and `found`
unfoldable pub collect : List (Option Problem) → Problem → Bool → Option Problem
unfolding join_errors
collect [] result found = if found then some result else none
collect (none ∷ ps) result found = collect ps result found
collect (some p ∷ ps) result found =
    collect ps
      (record {
        requeue = result.requeue || p.requeue;
        problem = join_errors result.problem p.problem;
        err = join_errors result.err p.err;
      })
      true

-- `AggregateProblem`
unfoldable pub aggregate_problem : List (Option Problem) → Option Problem
unfolding collect
aggregate_problem [] = none
aggregate_problem (p ∷ []) = p
aggregate_problem (p ∷ (q ∷ ps)) =
    collect (p ∷ (q ∷ ps)) (record { requeue = false; problem = none; err = none }) false

-- what `Result` returns, a `ctrl.Result` and an error, and the line that it logs with its argument
pub record Answer : Type 0 where
  pub requeue : Bool
  pub requeue_after : ℕ
  pub err : Option Text
  pub line : Text
  pub argument : Option Text

-- `ctrl.Result{}` with an error
abbrev pub stop : Option Text → Text → Problem → Answer
stop e line p = record {
  requeue = false;
  requeue_after = 0;
  err = e;
  line = line;
  argument = some (to_text p);
}

abbrev pub incomplete_line : Text
incomplete_line = codes "*** reconciliation incomplete: {{error}}"

-- the part of `Result` behind the test of the error
unfoldable pub incomplete_answer : Problem → ℕ → Answer
incomplete_answer p after =
    if p.requeue && is_some p.problem then stop p.problem incomplete_line p else record {
      requeue = p.requeue;
      requeue_after = after;
      err = none;
      line = incomplete_line;
      argument = some (to_text p);
    }

-- `Result`; `after` is what `general.Optional` makes of the optional durations
unfoldable pub result : Option Problem → ℕ → Answer
unfolding incomplete_answer
result none after = record {
  requeue = false;
  requeue_after = after;
  err = none;
  line = codes "*** reconciliation completed";
  argument = none;
}
result (some p) after =
    if is_some p.err && p.requeue
    then stop p.err (codes "*** temporary reconciliation problem: {{error}}") p
    else if is_some p.err && not (is_some p.problem)
    then stop none
        (codes "*** permanent resource problem -> wait for resource modification: {{error}}") p
    else incomplete_answer p after
