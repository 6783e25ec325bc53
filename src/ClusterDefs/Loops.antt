-- ===== src/ClusterDefs/Loops.antt =====
-- What the rounds of `Validate` keep, and what it then returns.
use kubecrtutils.Prelude.{
  ℕ, zero, suc, ◌≡◌, refl, true, false, ◌&&◌, List, [], ◌∷◌, Option, none, elem, Bool-cases,
  Option-cases, if◌then◌else◌, inl, inr, arith, sym, ap, ◌==◌, ==_iff, subst,
}
use kubecrtutils.Prelude.Text.{Text, text_eq}
use kubecrtutils.Fleet.{new_clusters}
use kubecrtutils.ClusterDefs.{
  Definition, State, going, each, rounds, restart, unresolved, stop_for, conclude, skipped,
}
use kubecrtutils.ClusterDefs.Steps.{After, After-continue, Branches, each-After}

-- the state behind `newClusters`
abbrev pub start : State
start = record { clusters = new_clusters; intermediate = []; missing = true; found = true }

module _ (definition : Text → Definition) (main : Definition) (main_error : Option Text)
    (required : List Text) where
  -- what a round makes of any state holds behind all rounds
  pub rounds-After :
      (P Q : State → Type 0) (R : State → Type 0) (order : ℕ → List Text) (fuel i : ℕ) (s : State)
      → R s
      → ((t : State) → P t → R t)
      → ((i : ℕ) (t : State)
          → R t
          → After P Q (each definition main main_error required (order i) (restart t)))
      → After P Q (rounds definition main main_error required order fuel i s)
  unfolding rounds After
  rounds-After P Q R order zero i s r weaken round = refl
  rounds-After P Q R order (suc fuel) i s r weaken round =
      After-continue P P Q (each definition main main_error required (order i) (restart s))
        (λ t. elim (t.missing && t.found) [
          | true ↦ rounds definition main main_error required order fuel (suc i) t
          | false ↦ going t
        ])
        (round i s r)
        (λ t p. elim (Bool-cases (t.missing && t.found)) [
          | inl more ↦ rw more (rounds-After P Q R order fuel (suc i) t (weaken t p) weaken round)
          | inr stop ↦ rw stop p
        ])

  -- a property that every step and every new round keeps
  pub rounds-kept :
      (P Q : State → Type 0) (order : ℕ → List Text) (fuel i : ℕ) (s : State)
      → P s
      → ((t : State) → P t → P (restart t))
      → ((i : ℕ) (n : Text) (t : State)
          → elem n (order i) ≡ true
          → P t
          → Branches definition main main_error required P Q n t)
      → After P Q (rounds definition main main_error required order fuel i s)
  rounds-kept P Q order fuel i s p restarts step =
      rounds-After P Q P order fuel i s p (λ t h. h)
        (λ i t h.
          each-After definition main main_error required P Q (order i) (restart t) (restarts t h)
            (step i))

  -- a name of the last search without a cluster is reported
  unresolved-none :
      (n : Text) (names : List Text) (s : State)
      → elem n names ≡ true
      → unresolved definition main main_error required names s ≡ none
      → skipped definition main main_error required n s ≡ true
  unfolding unresolved
  unresolved-none n [] s is_in h = ground arith
  unresolved-none n (k ∷ names) s is_in h = elim (Bool-cases (k == n)) [
    | inl same ↦
        subst (λ x. skipped definition main main_error required x s ≡ true) ((==_iff k n).0 same)
          (ground arith)
    | inr other ↦ ground (arith, unresolved-none n names s)
  ]

  -- behind the rounds: what holds of a state that misses nothing, or whose names all are resolved
  pub conclude-After :
      (R Q : State → Type 0) (names : List Text) (s : State)
      → Q s
      → (s.missing ≡ false → R s)
      → (((n : Text) → elem n names ≡ true → skipped definition main main_error required n s ≡ true)
          → R s)
      → After R Q (conclude definition main main_error required names s)
  unfolding conclude stop_for After
  conclude-After R Q names s q complete resolved = elim (Bool-cases s.missing) [
    | inr no_miss ↦
        subst (λ o. After R Q (stop_for o s))
          (sym (
            ap (λ b. if b then unresolved definition main main_error required names s else none)
              no_miss))
          (complete no_miss)
    | inl miss ↦
        subst (λ o. After R Q (stop_for o s))
          (sym (
            ap (λ b. if b then unresolved definition main main_error required names s else none)
              miss))
          (elim (Option-cases (unresolved definition main main_error required names s)) [
            | inl nothing ↦
                rw nothing (resolved (λ n is_in. unresolved-none n names s is_in nothing))
            | inr (n, e) ↦ rw e q
          ])
  ]
