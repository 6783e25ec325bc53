-- ===== src/Constraints/Rules/Operators.antt =====
-- What `And`, `Or` and `Not` return, described without their loops.
use kubecrtutils.Prelude.{
  ◌≡◌, refl, Bool, true, false, ◌||◌, List, [], ◌∷◌, Option, none, some, arith, ap, if◌then◌else◌,
  ◌∙◌,
}
use kubecrtutils.Prelude.Text.{Text, codes}
use kubecrtutils.Constraints.Activation.{Activation, said_yes, said_no, no_opinion, or, and, not}
use kubecrtutils.Constraints.Context.{Context}
use kubecrtutils.Constraints.Rules.{
  MatchError, Verdict, Constraint, Constraints, and_of, or_of, not_of, nil, cons, join, and_loop,
  or_loop, match, verdicts,
}

-- some operand has the given opinion
abbrev pub any_yes : List Verdict → Bool
any_yes [] = false
any_yes ((said_yes, e) ∷ vs) = true
any_yes (_ ∷ vs) = any_yes vs

abbrev pub any_no : List Verdict → Bool
any_no [] = false
any_no ((said_no, e) ∷ vs) = true
any_no (_ ∷ vs) = any_no vs

-- the error that comes with the first `No`
abbrev pub first_no : List Verdict → Option (Option MatchError)
first_no [] = none
first_no ((said_no, e) ∷ vs) = some e
first_no (_ ∷ vs) = first_no vs

-- the errors joined in order, behind the errors so far
abbrev pub all_errors : Text → Option MatchError → List Verdict → Option MatchError
all_errors op sofar [] = sofar
all_errors op sofar ((a, none) ∷ vs) = all_errors op sofar vs
all_errors op sofar ((a, some e) ∷ vs) = all_errors op (join sofar (some e) op) vs

-- the operands that do not say `No`
abbrev pub in_favour : List Verdict → List Verdict
in_favour [] = []
in_favour ((said_no, e) ∷ vs) = in_favour vs
in_favour (v ∷ vs) = v ∷ in_favour vs

abbrev pub any_clean : List Verdict → Bool
any_clean [] = false
any_clean ((a, none) ∷ vs) = true
any_clean ((a, some e) ∷ vs) = any_clean vs

abbrev pub and_result : Activation → Option MatchError → List Verdict → Verdict
and_result r sofar vs = elim (first_no vs) [
  | some e ↦ (said_no, e)
  | none ↦ (if any_yes vs then said_yes else r, all_errors (codes "AND") sofar vs)
]

and_loop_lem :
    (vs : List Verdict) (sofar : Option MatchError)
    → (and_loop no_opinion sofar vs ≡ and_result no_opinion sofar vs)
      × (and_loop said_yes sofar vs ≡ and_result said_yes sofar vs)
unfolding and_loop and
and_loop_lem [] sofar = (refl, refl)
and_loop_lem ((said_no, e) ∷ vs) sofar = (refl, refl)
and_loop_lem ((said_yes, none) ∷ vs) sofar = ground (arith, and_loop_lem vs sofar)
and_loop_lem ((said_yes, some e) ∷ vs) sofar =
    ground (arith, and_loop_lem vs (join sofar (some e) (codes "AND")))
and_loop_lem ((no_opinion, none) ∷ vs) sofar = and_loop_lem vs sofar
and_loop_lem ((no_opinion, some e) ∷ vs) sofar = and_loop_lem vs (join sofar (some e) (codes "AND"))

-- `And` says `No`, with the error of the first operand that says `No`, if there is one. Otherwise
-- it says `Yes` if some operand does, else it has no opinion, and the errors are joined in order.
pub and_correct :
    (cs : Constraints) (ctx : Context)
    → match (and_of cs) ctx ≡ (elim (first_no (verdicts cs ctx)) [
      | some e ↦ (said_no, e)
      | none ↦ (
        if any_yes (verdicts cs ctx) then said_yes else no_opinion,
        all_errors (codes "AND") none (verdicts cs ctx),
      )
    ])
unfolding match
and_correct cs ctx = (and_loop_lem (verdicts cs ctx) none).0

abbrev or_activation : Activation → List Verdict → Activation
or_activation r vs = if any_yes vs then said_yes else if any_no vs then or r said_no else r

or_activation-cons :
    (r : Activation) (v : Verdict) (vs : List Verdict)
    → or_activation (or r v.0) vs ≡ or_activation r (v ∷ vs)
unfolding or
or_activation-cons r (said_yes, e) vs = ground arith
or_activation-cons r (said_no, e) vs = ground arith
or_activation-cons r (no_opinion, e) vs = ground arith

or_loop_activation :
    (vs : List Verdict) (r : Activation) (sofar : Option MatchError) (found : Bool)
    → (or_loop r sofar found vs).0 ≡ or_activation r vs
unfolding or_loop
or_loop_activation [] r sofar true = refl
or_loop_activation [] r sofar false = refl
or_loop_activation ((said_no, e) ∷ vs) r sofar true =
    or_loop_activation vs (or r said_no) sofar true ∙ or_activation-cons r (said_no, e) vs
or_loop_activation ((said_no, e) ∷ vs) r sofar false =
    or_loop_activation vs (or r said_no) sofar false ∙ or_activation-cons r (said_no, e) vs
or_loop_activation ((a, none) ∷ vs) r sofar true =
    or_loop_activation vs (or r a) sofar true ∙ or_activation-cons r (a, none) vs
or_loop_activation ((a, none) ∷ vs) r sofar false =
    or_loop_activation vs (or r a) sofar true ∙ or_activation-cons r (a, none) vs
or_loop_activation ((a, some e) ∷ vs) r sofar true =
    or_loop_activation vs (or r a) (join sofar (some e) (codes "OR")) true
    ∙ or_activation-cons r (a, some e) vs
or_loop_activation ((a, some e) ∷ vs) r sofar false =
    or_loop_activation vs (or r a) (join sofar (some e) (codes "OR")) false
    ∙ or_activation-cons r (a, some e) vs

abbrev or_error : Option MatchError → Bool → List Verdict → Option MatchError
or_error sofar found vs =
    if found || any_clean (in_favour vs) then none else all_errors (codes "OR") sofar (in_favour vs)

or_loop_error :
    (vs : List Verdict) (r : Activation) (sofar : Option MatchError) (found : Bool)
    → (or_loop r sofar found vs).1 ≡ or_error sofar found vs
unfolding or_loop
or_loop_error [] r sofar true = refl
or_loop_error [] r sofar false = refl
or_loop_error ((said_no, e) ∷ vs) r sofar true = or_loop_error vs (or r said_no) sofar true
or_loop_error ((said_no, e) ∷ vs) r sofar false = or_loop_error vs (or r said_no) sofar false
or_loop_error ((a, none) ∷ vs) r sofar true = or_loop_error vs (or r a) sofar true
or_loop_error ((a, none) ∷ vs) r sofar false = or_loop_error vs (or r a) sofar true
or_loop_error ((a, some e) ∷ vs) r sofar true =
    or_loop_error vs (or r a) (join sofar (some e) (codes "OR")) true
or_loop_error ((a, some e) ∷ vs) r sofar false =
    or_loop_error vs (or r a) (join sofar (some e) (codes "OR")) false

-- `Or` says `Yes` if some operand does, else `No` if some operand does, else it has no opinion.
-- Operands that say `No` bring no error. If one of the others has no error the result has none;
-- otherwise it has their errors, joined in order.
pub or_correct :
    (cs : Constraints) (ctx : Context)
    → match (or_of cs) ctx ≡ (
      if any_yes (verdicts cs ctx)
          then said_yes
          else if any_no (verdicts cs ctx)
          then said_no
          else no_opinion,
      if any_clean (in_favour (verdicts cs ctx))
          then none
          else all_errors (codes "OR") none (in_favour (verdicts cs ctx)),
    )
unfolding match or
or_correct cs ctx = λ i. (
  or_loop_activation (verdicts cs ctx) no_opinion none false i,
  or_loop_error (verdicts cs ctx) no_opinion none false i,
)

-- the operands with `Not` before each
unfoldable pub negate : Constraints → Constraints
negate nil = nil
negate (cons c cs) = cons (not_of c) (negate cs)

any_yes-negate :
    (cs : Constraints) (ctx : Context)
    → (any_yes (verdicts (negate cs) ctx) ≡ any_no (verdicts cs ctx))
      × (any_no (verdicts (negate cs) ctx) ≡ any_yes (verdicts cs ctx))
unfolding negate match not
any_yes-negate nil ctx = (refl, refl)
any_yes-negate (cons c cs) ctx = ground (arith, any_yes-negate cs ctx)

and_result-no :
    (vs : List Verdict)
    → (and_result no_opinion none vs).0
      ≡ (if any_no vs then said_no else if any_yes vs then said_yes else no_opinion)
and_result-no vs = go vs none
  where
    go :
        (vs : List Verdict) (sofar : Option MatchError)
        → (and_result no_opinion sofar vs).0
          ≡ (if any_no vs then said_no else if any_yes vs then said_yes else no_opinion)
    go [] sofar = refl
    go ((said_no, e) ∷ vs) sofar = refl
    go ((said_yes, none) ∷ vs) sofar = ground (arith, go vs sofar)
    go ((said_yes, some e) ∷ vs) sofar = ground (arith, go vs (join sofar (some e) (codes "AND")))
    go ((no_opinion, none) ∷ vs) sofar = go vs sofar
    go ((no_opinion, some e) ∷ vs) sofar = go vs (join sofar (some e) (codes "AND"))

match-and_of :
    (cs : Constraints) (ctx : Context)
    → (match (and_of cs) ctx).0 ≡ (
        if any_no (verdicts cs ctx)
        then said_no
        else if any_yes (verdicts cs ctx)
        then said_yes
        else no_opinion)
match-and_of cs ctx = ap (λ v. v.0) (and_correct cs ctx) ∙ and_result-no (verdicts cs ctx)

match-not_of : (c : Constraint) (ctx : Context) → (match (not_of c) ctx).0 ≡ not (match c ctx).0
unfolding match
match-not_of c ctx = refl

-- De Morgan: `Not` of an `And` or `Or` has the activation of the other one over the negated
-- operands.
pub not-and_of :
    (cs : Constraints) (ctx : Context)
    → ((match (not_of (and_of cs)) ctx).0 ≡ (match (or_of (negate cs)) ctx).0)
      × ((match (not_of (or_of cs)) ctx).0 ≡ (match (and_of (negate cs)) ctx).0)
unfolding not
not-and_of cs ctx = (
  ground (
    arith,
    match-not_of (and_of cs) ctx,
    match-and_of cs ctx,
    or_correct (negate cs) ctx,
    any_yes-negate cs ctx,
  ),
  ground (
    arith,
    match-not_of (or_of cs) ctx,
    match-and_of (negate cs) ctx,
    or_correct cs ctx,
    any_yes-negate cs ctx,
  ),
)
