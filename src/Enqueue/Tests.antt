-- ===== src/Enqueue/Tests.antt =====
-- Tests of the event queues, and the instances of their theorems.
use kubecrtutils.Prelude.{ℕ, ◌≡◌, refl, [], ◌∷◌, Option, none, some, nat_eq}
use kubecrtutils.Prelude.Text.{Text, codes}
use kubecrtutils.Maps.{lookup, insert}
use kubecrtutils.Enqueue.{
  Enqueues, trigger_source, start_source, start, enqueue_by_gvk, enqueue_by_object,
}
use kubecrtutils.Enqueue.Reached.{
  Reached, begin, triggered, started, adds, enqueue_once, enqueue_by_object_correct,
}

-- kinds, keys and requests are numbers
abbrev same_request : ℕ → Option Text × ℕ
same_request k = (none, k)

abbrev no_request : ℕ → Option Text × ℕ
no_request k = (some (codes "no"), k)

-- the queue 5 is registered twice for the kind 1, and the queue 6 once
abbrev registered : Enqueues ℕ
registered = start_source {T = ℕ} same_request 1 6 (
    start_source {T = ℕ} same_request 1 5
      (start_source {T = ℕ} same_request 1 5 (trigger_source {T = ℕ} same_request 1 [])))

registered-Reached : Reached same_request registered
registered-Reached = started 1 6 _ (started 1 5 _ (started 1 5 _ (triggered 1 [] begin)))

two_queues : lookup 1 registered ≡ some (5 ∷ 6 ∷ [])
unfolding lookup insert start_source trigger_source start
two_queues = refl

enqueue_once_example :
    ((enqueue_by_gvk same_request 1 7 registered).0 ≡ none)
    × (adds 5 (enqueue_by_gvk same_request 1 7 registered).1 ≡ 1)
enqueue_once_example =
    enqueue_once same_request registered 1 7 7 (5 ∷ 6 ∷ []) 5 registered-Reached two_queues refl

-- a request that is not made is an error of the one method, and none of the other
dropped :
    (enqueue_by_gvk no_request 1 7 registered ≡ (some (codes "no"), []))
    × (enqueue_by_object no_request (some 1) (none, 1) (none, 7) registered ≡ (none, []))
unfolding enqueue_by_gvk enqueue_by_object lookup insert start_source trigger_source start
dropped = (refl, refl)

enqueue_by_object_correct_example :
    ((enqueue_by_object same_request (some 1) (none, 1) (none, 7) registered).0 ≡ none)
    × (adds 5 (enqueue_by_object same_request (some 1) (none, 1) (none, 7) registered).1 ≡ 1)
unfolding lookup insert start_source trigger_source start
enqueue_by_object_correct_example =
    enqueue_by_object_correct same_request registered (some 1) (none, 1) (none, 7) 5
      registered-Reached
