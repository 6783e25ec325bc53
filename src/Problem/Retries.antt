-- ===== src/Problem/Retries.antt =====
-- What the controller runtime is told about a problem.
use kubecrtutils.Prelude.{
  ℕ, ◌≡◌, refl, Bool, false, not, ◌&&◌, ◌||◌, Option, none, some, if◌then◌else◌, is_some, arith,
}
use kubecrtutils.Prelude.Text.{Text}
use kubecrtutils.Problem.{
  Problem, Answer, result, incomplete_answer, requeue_of, failed, temporary_problem,
  watch_backed_problem, incomplete_line,
}

-- the runtime tries again with a back-off: it is asked to, or it is given an error
abbrev pub is_retried : Answer → Bool
is_retried a = a.requeue || is_some a.err

abbrev pub first_of : Option Text → Option Text → Option Text
first_of (some a) b = some a
first_of none b = b

-- The runtime tries again exactly if the problem asks for it. The error that it is given is then
-- the error of the problem, or else its cause. It is told the time of the next regular run exactly
-- if it is given no error and the problem is not a permanent one, with an error but no cause.
pub result_correct :
    (p : Problem) (after : ℕ)
    → (is_retried (result (some p) after) ≡ p.requeue)
      × ((result (some p) after).err ≡ (if p.requeue then first_of p.err p.problem else none))
      × ((result (some p) after).requeue_after ≡ (
          if is_some (result (some p) after).err
            || (not p.requeue && (is_some p.err && not (is_some p.problem)))
          then 0
          else after))
unfolding result incomplete_answer
result_correct p after = (ground arith, ground arith, ground arith)

-- Given an error, `Requeue` and `TemporaryProblem` pass it to the runtime, which tries again, and
-- `WatchBackedProblem` and `Failed` do neither. Given `nil`, the first three are no problem, as if
-- the reconciliation had succeeded, but `Failed` is one, logged as an incomplete reconciliation.
pub constructors_correct :
    (e : Option Text) (after : ℕ)
    → ((result (requeue_of e) after).err ≡ e)
      × ((result (temporary_problem e) after).err ≡ e)
      × (is_retried (result (watch_backed_problem e) after) ≡ false)
      × (is_retried (result (failed e) after) ≡ false)
      × (is_some (requeue_of e) ≡ is_some e)
      × (is_some (temporary_problem e) ≡ is_some e)
      × (is_some (watch_backed_problem e) ≡ is_some e)
      × (is_some e ≡ false → (result (failed e) after).line ≡ incomplete_line)
unfolding result incomplete_answer requeue_of temporary_problem watch_backed_problem failed
constructors_correct none after = (refl, refl, refl, refl, refl, refl, refl, λ e. refl)
constructors_correct (some t) after = (refl, refl, refl, refl, refl, refl, refl, λ e. cc e)
