-- ===== src/Problem/Aggregate.antt =====
-- What an aggregated problem stands for.
use kubecrtutils.Prelude.{
  ℕ, ◌≡◌, refl, Bool, true, false, ◌||◌, Option, none, some, if◌then◌else◌, arith, List, [], ◌∷◌,
  append_assoc, Bool-cases, inl, inr, ap, sym, ◌∙◌,
}
use kubecrtutils.Prelude.Text.{Text}
use kubecrtutils.Strings.{join}
use kubecrtutils.Problem.{Problem, aggregate_problem, collect, join_errors, result}
use kubecrtutils.Problem.Retries.{is_retried, result_correct}

-- some problem is reported, and some problem asks to be tried again
abbrev pub any_problem : List (Option Problem) → Bool
any_problem [] = false
any_problem (none ∷ ps) = any_problem ps
any_problem (some p ∷ ps) = true

abbrev pub any_requeue : List (Option Problem) → Bool
any_requeue [] = false
any_requeue (none ∷ ps) = any_requeue ps
any_requeue (some p ∷ ps) = p.requeue || any_requeue ps

abbrev pub cons_some : Option Text → List Text → List Text
cons_some none ts = ts
cons_some (some e) ts = e ∷ ts

-- the texts that a field of the problems has
abbrev pub texts : (Problem → Option Text) → List (Option Problem) → List Text
texts f [] = []
texts f (none ∷ ps) = texts f ps
texts f (some p ∷ ps) = cons_some (f p) (texts f ps)

-- lines, if there are any
abbrev pub lines : List Text → Option Text
lines [] = none
lines (t ∷ ts) = some (join 10 (t ∷ ts))

join_errors-lines :
    (t : Text) (e : Option Text) (ts : List Text)
    → join_errors e (lines (t ∷ ts)) ≡ join_errors (join_errors e (some t)) (lines ts)
unfolding join_errors join
join_errors-lines t none [] = refl
join_errors-lines t none (u ∷ ts) = refl
join_errors-lines t (some e) [] = refl
join_errors-lines t (some e) (u ∷ ts) = ap some (simp append_assoc)

join_errors-none : (e : Option Text) → join_errors e none ≡ e
unfolding join_errors
join_errors-none none = refl
join_errors-none (some e) = refl

join_errors-cons_some :
    (o : Option Text) (e : Option Text) (ts : List Text)
    → join_errors (join_errors e o) (lines ts) ≡ join_errors e (lines (cons_some o ts))
join_errors-cons_some none e ts = ap (λ r. join_errors r (lines ts)) (join_errors-none e)
join_errors-cons_some (some t) e ts = sym (join_errors-lines t e ts)

-- what the loop returns, from where it stands
abbrev gathered : List (Option Problem) → Problem → Problem
gathered ps s = record {
  requeue = s.requeue || any_requeue ps;
  problem = join_errors s.problem (lines (texts (λ (p : Problem). p.problem) ps));
  err = join_errors s.err (lines (texts (λ (p : Problem). p.err) ps));
}

abbrev absorb : Problem → Problem → Problem
absorb p s = record {
  requeue = s.requeue || p.requeue;
  problem = join_errors s.problem p.problem;
  err = join_errors s.err p.err;
}

gathered-cons :
    (p : Problem) (ps : List (Option Problem)) (s : Problem)
    → gathered ps (absorb p s) ≡ gathered (some p ∷ ps) s
gathered-cons p ps s =
    rw
      (
        join_errors-cons_some p.problem s.problem (texts (λ (q : Problem). q.problem) ps),
        join_errors-cons_some p.err s.err (texts (λ (q : Problem). q.err) ps),
      )
      (ground arith)

collect_correct :
    (ps : List (Option Problem)) (s : Problem) (found : Bool)
    → collect ps s found ≡ (if found || any_problem ps then some (gathered ps s) else none)
unfolding collect
collect_correct [] s true = ground (arith, join_errors-none s.problem, join_errors-none s.err)
collect_correct [] s false = refl
collect_correct (none ∷ ps) s found = collect_correct ps s found
collect_correct (some p ∷ ps) s true =
    collect_correct ps (absorb p s) true ∙ ap some (gathered-cons p ps s)
collect_correct (some p ∷ ps) s false =
    collect_correct ps (absorb p s) true ∙ ap some (gathered-cons p ps s)

lines-cons_some : (o : Option Text) → lines (cons_some o []) ≡ o
unfolding join
lines-cons_some none = refl
lines-cons_some (some t) = refl

-- The aggregate of problems is `nil` exactly if all of them are. Otherwise it asks for another try
-- exactly if one of them does, its error has the lines of their errors and its cause the lines of
-- their causes, in their order.
pub aggregate_correct :
    (ps : List (Option Problem))
    → aggregate_problem ps ≡ (
        if any_problem ps
        then some (record {
          requeue = any_requeue ps;
          problem = lines (texts (λ (p : Problem). p.problem) ps);
          err = lines (texts (λ (p : Problem). p.err) ps);
        })
        else none)
unfolding aggregate_problem
aggregate_correct [] = refl
aggregate_correct (none ∷ []) = refl
aggregate_correct (some p ∷ []) = ground (arith, lines-cons_some p.problem, lines-cons_some p.err)
aggregate_correct (p ∷ (q ∷ ps)) =
    unfold join_errors in
    collect_correct (p ∷ (q ∷ ps)) (record { requeue = false; problem = none; err = none }) false

any_requeue-any_problem :
    (ps : List (Option Problem)) → any_problem ps ≡ false → any_requeue ps ≡ false
any_requeue-any_problem [] h = refl
any_requeue-any_problem (none ∷ ps) h = any_requeue-any_problem ps h
any_requeue-any_problem (some p ∷ ps) h = cc h

-- The runtime tries again after an aggregate of problems exactly if one of them asks for it.
pub result-aggregate :
    (ps : List (Option Problem)) (after : ℕ)
    → is_retried (result (aggregate_problem ps) after) ≡ any_requeue ps
result-aggregate ps after = elim (Bool-cases (any_problem ps)) [
  | inl some_problem ↦
      rw (aggregate_correct ps, some_problem)
        (result_correct
          (record {
            requeue = any_requeue ps;
            problem = lines (texts (λ (p : Problem). p.problem) ps);
            err = lines (texts (λ (p : Problem). p.err) ps);
          })
          after).0
  | inr no_problem ↦
      rw (aggregate_correct ps, no_problem, any_requeue-any_problem ps no_problem)
        (unfold result in refl)
]
