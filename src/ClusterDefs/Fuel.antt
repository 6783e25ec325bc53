-- ===== src/ClusterDefs/Fuel.antt =====
-- The number of rounds that is enough for `Validate`.
use kubecrtutils.Prelude.{
  ℕ, suc, ◌+◌, ◌*◌, ◌≡◌, refl, ◌∙◌, true, ◌||◌, List, [], ◌∷◌, ◌++◌, Option, none, some, map,
  length, length-append, elem, elem-append, is_some, Bool-cases, inl, inr, arith, ◌==◌, ap, ==_iff,
}
use kubecrtutils.Prelude.Text.{Text, text_eq}
use kubecrtutils.Strings.{Lacks}
use kubecrtutils.Maps.{lookup}
use kubecrtutils.Fleet.{Equivalent, separator}
use kubecrtutils.ClusterDefs.{
  Definition, State, Progress, going, reported, refused, out_of_fuel, created, Ranges, rounds,
  resolve, conclude, stop_for, default_name, Definitions, validate, finish, effective_required,
}
use kubecrtutils.ClusterDefs.Loops.{start}
use kubecrtutils.ClusterDefs.Covers.{Named}
use kubecrtutils.Maps.Count.{count-le}
use kubecrtutils.ClusterDefs.Ends.{returns, rounds-return, left, continue-returns}

-- the names and their fallbacks
names_of_interest : (Text → Definition) → List Text → List Text
names_of_interest definition names = names ++ map (λ n. (definition n).fallback) names

length-map : (f : Text → Text) (l : List Text) → length (map f l) ≡ length l
length-map f [] = refl
length-map f (x ∷ l) = ap suc (length-map f l)

elem-map :
    (f : Text → Text) (n : Text) (l : List Text) → elem n l ≡ true → elem (f n) (map f l) ≡ true
elem-map f n [] h = ground (arith, h)
elem-map f n (x ∷ l) h = elim (Bool-cases (x == n)) [
  | inl same ↦ ground (arith, ap f ((==_iff x n).0 same), ==_iff (f x) (f n))
  | inr other ↦ ground (arith, elem-map f n l, h, other)
]

length-names_of_interest :
    (definition : Text → Definition) (names : List Text)
    → length (names_of_interest definition names) ≡ length names + length names
unfolding names_of_interest
length-names_of_interest definition names =
    length-append names (map (λ n. (definition n).fallback) names)
    ∙ ap (λ m. length names + m) (length-map (λ n. (definition n).fallback) names)

inside :
    (definition : Text → Definition) (names : List Text) (u : Text)
    → elem u names ≡ true
    → (elem u (names_of_interest definition names) ≡ true)
      × (elem (definition u).fallback (names_of_interest definition names) ≡ true)
unfolding names_of_interest
inside definition names u is_in = (
  rw (elem-append u names (map (λ n. (definition n).fallback) names)) (ground (arith, is_in)),
  rw (elem-append (definition u).fallback names (map (λ n. (definition n).fallback) names))
      (ground (arith, elem-map (λ n. (definition n).fallback) u names is_in)),
)

module _ (definition : Text → Definition) (main : Definition) (main_error : Option Text)
    (required : List Text) where
  conclude-returns :
      (names : List Text) (s : State)
      → returns (conclude definition main main_error required names s) ≡ true
  unfolding conclude stop_for returns
  conclude-returns names s = ground arith

  resolve-returns :
      (names : List Text) (r : Ranges)
      → Named definition main main_error required names
      → ((i : ℕ) (k : Text) → elem k (r.rounds i) ≡ elem k names)
      → returns (resolve definition main main_error required (suc (4 * length names)) r) ≡ true
  unfolding resolve left
  resolve-returns names r named in_rounds =
      let us = names_of_interest definition names in
      let few = length-names_of_interest definition names in
      let known = count-le (λ u. is_some (lookup u start.clusters.elements)) us in
      let noted = count-le (λ u. elem u start.intermediate) us in
      continue-returns
        (rounds definition main main_error required r.rounds (suc (4 * length names)) 0 start)
        (conclude definition main main_error required r.check)
        (rounds-return definition main main_error required us names r.rounds
          (suc (4 * length names)) 0 start named (inside definition names) in_rounds
          (omega (arith, few, known, noted)))
        (conclude-returns r.check)

finish-returns :
    {L : Type 0} (add_error : Option Text → L → L) (wrap : Option Text → List Text → Option Text)
    (get_error : L → Option Text) (rest : List Text) (l : L) (p : Progress)
    → returns p ≡ true
    → is_some (finish add_error wrap get_error rest l p) ≡ true
unfolding finish returns
finish-returns add_error wrap get_error rest l (going s) h = refl
finish-returns add_error wrap get_error rest l (reported e ctx s) h = refl
finish-returns add_error wrap get_error rest l (refused e s) h = refl
finish-returns add_error wrap get_error rest l out_of_fuel h = ground (arith, h)

-- `Validate` comes to an end: four rounds for each definition and one more are enough, whatever the
-- configurations, the fallbacks and the orders of the ranges. (No name holds a separator, every
-- range of a round has the names of the definitions, and a cluster is named after its definition.)
pub validate_returns :
    {L : Type 0} (add_error : Option Text → L → L) (wrap : Option Text → List Text → Option Text)
    (get_error : L → Option Text) (definition : Text → Definition) (main : Definition)
    (main_error : Option Text) (used names : List Text) (set_error : Option Text) (r : Ranges)
    (d : Definitions L)
    → ((k : Text) → elem k names ≡ true → Lacks separator k)
    → ((k : Text) (acc : Equivalent)
        → elem k names ≡ true
        → (definition k).create ≡ created acc
        → acc.own.name ≡ k)
    → ((acc : Equivalent) → main.create ≡ created acc → acc.own.name ≡ default_name)
    → ((i : ℕ) (k : Text) → elem k (r.rounds i) ≡ elem k names)
    → is_some (
        validate add_error wrap get_error definition main main_error used names set_error
          (suc (4 * length names))
          r
          d)
      ≡ true
unfolding validate
validate_returns add_error wrap get_error definition main main_error used names (some e) r d lacks
      made main_made in_rounds =
    elim (Bool-cases (is_some d.clusters || is_some (get_error d.errlist))) [
      | inl already ↦ rw (validate, already) refl
      | inr fresh ↦ rw (validate, fresh) refl
    ]
validate_returns add_error wrap get_error definition main main_error used names none r d lacks made
      main_made in_rounds =
    elim (Bool-cases (is_some d.clusters || is_some (get_error d.errlist))) [
      | inl already ↦ rw (validate, already) refl
      | inr fresh ↦
          rw (validate, fresh)
            (finish-returns add_error wrap get_error r.rest d.errlist
              (resolve definition main main_error (effective_required used names)
                (suc (4 * length names)) r)
              (resolve-returns definition main main_error (effective_required used names) names r
                (record { lacks = lacks; made = made; main_made = main_made }) in_rounds))
    ]
