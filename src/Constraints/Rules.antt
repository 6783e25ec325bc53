-- ===== src/Constraints/Rules.antt =====
-- controller/constraints/{activated,always,complete,disjoint,operators,constraints}.go: the
-- constraints and their `Match`. An error is a value with the arguments of its format. `Match` is
-- taken as a function of its context, so `And` may match its operands before it looks at them.
pub mod Operators
pub mod Groups
pub mod Disjoint
use kubecrtutils.Prelude.{
  ℕ, zero, suc, ◌+◌, ◌≡◌, Bool, true, false, List, [], ◌∷◌, ◌++◌, Option, none, some, length, drop,
  if◌then◌else◌, ltb, ◌&&◌, ◌==◌, nat_eq, is_some,
}
use kubecrtutils.Prelude.Text.{Text, codes, text_eq}
use kubecrtutils.Maps.Sets.{inter}
use kubecrtutils.Constraints.Activation.{Activation, said_yes, said_no, no_opinion, or, and, not}
use kubecrtutils.Constraints.Context.{Names, Context, has, get_group}

pub data MatchError : Type 0 where
  undeclared : Text → MatchError
  incomplete : Text → Names → MatchError
  overlapping : Text → Text → MatchError
  joined : MatchError → Text → MatchError → MatchError
  other : Text → MatchError

-- `(Activation, error)`
abbrev pub Verdict : Type 0
Verdict = Activation × Option MatchError

-- `custom` stands for an implementation of `Constraint` outside the package
mutual
  pub data Constraint : Type 0 where
    activated : Names → Constraint
    always : Constraint
    complete : Names → Constraint
    disjoint : Names → Constraint
    and_of : Constraints → Constraint
    or_of : Constraints → Constraint
    not_of : Constraint → Constraint
    custom : (Context → Verdict) → Constraint

  pub data Constraints : Type 0 where
    nil : Constraints
    cons : Constraint → Constraints → Constraints

unfoldable pub join : Option MatchError → Option MatchError → Text → Option MatchError
join none b op = b
join (some a) none op = some a
join (some a) (some b) op = some (joined a op b)

-- `_activated.Match`
unfoldable pub match_activated : Names → Context → Verdict
match_activated [] ctx = (no_opinion, none)
match_activated (n ∷ ns) ctx = if has ctx (n ∷ ns) then (said_yes, none) else (said_no, none)

-- `_complete.Match`
unfoldable pub match_complete : Names → Context → Verdict
match_complete [] ctx = (no_opinion, none)
match_complete (group ∷ groups) ctx =
    let rest = match_complete groups ctx in
    elim (get_group ctx group) [
      | none ↦ (no_opinion, some (undeclared group))
      | some g ↦
          if length g == length (inter g ctx.selected)
          then rest
          else (no_opinion, some (incomplete group g))
    ]

-- what the inner loop of `_disjoint.Match` does: it returns, or it ends with a new `i`
pub data Scan : Type 0 where
  stop : Verdict → Scan
  next : ℕ → Scan

-- one group that is used in the current set hits the constraint
unfoldable pub hit : Context → Names → Bool
hit ctx g = ltb 0 (length (inter g ctx.selected))

-- `for j, group := range r.groups[i:]`, with `found` and `i`; `i = j` takes the index in the rest
unfoldable pub scan : Context → Names → ℕ → Text → ℕ → Scan
scan ctx [] j found i = next i
scan ctx (group ∷ groups) j found i =
    let onward = scan ctx groups (j + 1) found i in
    let taken = scan ctx groups (j + 1) group j in
    elim (get_group ctx group) [
      | none ↦ stop (no_opinion, some (undeclared group))
      | some g ↦
          if hit ctx g
          then if found == [] then taken else stop (said_yes, some (overlapping found group))
          else onward
    ]

-- `for i := 0; i < len(r.groups); i++`; `none` means that the fuel ran out
unfoldable pub disjoint_loop : ℕ → Context → Names → ℕ → Option Verdict
disjoint_loop zero ctx groups i = none
disjoint_loop (suc fuel) ctx groups i = elim (ltb i (length groups)) [
  | false ↦ some (no_opinion, none)
  | true ↦ elim (scan ctx (drop i groups) 0 [] i) [
    | stop v ↦ some v
    | next i' ↦ disjoint_loop fuel ctx groups (i' + 1)
  ]
]

-- `_disjoint.Match`; the fuel is never used up (`disjoint_total`)
unfoldable pub match_disjoint : Names → Context → Verdict
match_disjoint groups ctx = elim (disjoint_loop (suc (length groups)) ctx groups 0) [
  | none ↦ (no_opinion, none)
  | some v ↦ v
]

-- the loop of `_and.Match`, from `r` and `rerr`
unfoldable pub and_loop : Activation → Option MatchError → List Verdict → Verdict
and_loop r rerr [] = (r, rerr)
and_loop r rerr ((ok, err) ∷ vs) = elim (and r ok) [
  | said_no ↦ (said_no, err)
  | r' ↦ and_loop r' (elim err [ none ↦ rerr | some e ↦ join rerr (some e) (codes "AND") ]) vs
]

-- the loop of `_or.Match`, from `r`, `rerr` and `found`
unfoldable pub or_loop : Activation → Option MatchError → Bool → List Verdict → Verdict
or_loop r rerr true [] = (r, none)
or_loop r rerr false [] = (r, rerr)
or_loop r rerr found ((said_no, err) ∷ vs) = or_loop (or r said_no) rerr found vs
or_loop r rerr found ((ok, none) ∷ vs) = or_loop (or r ok) rerr true vs
or_loop r rerr found ((ok, some e) ∷ vs) =
    or_loop (or r ok) (join rerr (some e) (codes "OR")) found vs

-- `Match`, and the results that the loops of `And` and `Or` read
unfoldable mutual
  unfolding match_disjoint

  pub match : Constraint → Context → Verdict
  match (activated ns) ctx = match_activated ns ctx
  match always ctx = (said_yes, none)
  match (complete gs) ctx = match_complete gs ctx
  match (disjoint gs) ctx = match_disjoint gs ctx
  match (and_of cs) ctx = and_loop no_opinion none (verdicts cs ctx)
  match (or_of cs) ctx = or_loop no_opinion none false (verdicts cs ctx)
  match (not_of c) ctx = let v = match c ctx in (not v.0, v.1)
  match (custom f) ctx = f ctx

  pub verdicts : Constraints → Context → List Verdict
  verdicts nil ctx = []
  verdicts (cons c cs) ctx = match c ctx ∷ verdicts cs ctx

-- `_constraints.Add`
unfoldable pub append_all : Constraints → Constraints → Constraints
append_all nil ds = ds
append_all (cons c cs) ds = cons c (append_all cs ds)

-- `_constraints.Match`
unfoldable pub match_all : Constraints → Context → Verdict
unfolding match
match_all cs ctx = match (and_of cs) ctx
