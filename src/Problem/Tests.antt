-- ===== src/Problem/Tests.antt =====
-- Tests of the problems, and the instances of their theorems.
use kubecrtutils.Prelude.{
  ◌≡◌, refl, true, false, ◌&&◌, ◌||◌, [], ◌∷◌, none, some, is_some, if◌then◌else◌,
}
use kubecrtutils.Prelude.Text.{codes}
use kubecrtutils.Problem.{
  Problem, aggregate_problem, collect, join_errors, result, failed, incomplete_answer,
  incomplete_line, message,
}
use kubecrtutils.Problem.Retries.{is_retried, result_correct}
use kubecrtutils.Problem.Aggregate.{any_requeue, texts, lines, aggregate_correct}

-- `Failed(nil)` is a problem: it is logged as an incomplete reconciliation
failed_nil : (result (failed none) 0).line ≡ incomplete_line
unfolding result failed incomplete_answer
failed_nil = refl

joined :
    aggregate_problem (failed (some (codes "a")) ∷ none ∷ failed (some (codes "b")) ∷ [])
    ≡ failed (some (codes "a\nb"))
unfolding aggregate_problem collect join_errors failed
joined = refl

abbrev temporary : Problem
temporary = record { requeue = true; problem = none; err = some (codes "api") }

message_api : message temporary ≡ codes "api"
unfolding message
message_api = refl

result_correct_example :
    (is_retried (result (some temporary) 5) ≡ true)
    × ((result (some temporary) 5).err ≡ some (codes "api"))
    × ((result (some temporary) 5).requeue_after
        ≡ (if is_some (result (some temporary) 5).err || (false && (true && true)) then 0 else 5))
result_correct_example = result_correct temporary 5

aggregate_correct_example :
    aggregate_problem (some temporary ∷ none ∷ [])
    ≡ some (record {
      requeue = any_requeue (some temporary ∷ none ∷ []);
      problem = lines (texts (λ (p : Problem). p.problem) (some temporary ∷ none ∷ []));
      err = lines (texts (λ (p : Problem). p.err) (some temporary ∷ none ∷ []));
    })
aggregate_correct_example = aggregate_correct (some temporary ∷ none ∷ [])
