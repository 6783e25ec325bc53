-- ===== src/ClusterDefs/Ends.antt =====
-- The rounds of `Validate` come to an end: a round that finds something makes a cluster or notes a
-- fallback, and there are only so many names.
use kubecrtutils.Prelude.{
  ℕ, zero, suc, ◌+◌, ◌≤◌, ◌<◌, ◌≡◌, refl, ap, sym, ◌∙◌, subst, Bool, true, false, not, ◌&&◌, List,
  [], ◌∷◌, Option, none, elem, is_some, Bool-cases, if◌then◌else◌, inl, inr, arith, ==_iff, ==_self,
}
use kubecrtutils.Prelude.Text.{Text, text_eq}
use kubecrtutils.Strings.{Lacks}
use kubecrtutils.Maps.{lookup}
use kubecrtutils.Maps.Count.{count, count-drop}
use kubecrtutils.Maps.Sets.{add, elem-add}
use kubecrtutils.Fleet.{Equivalent, separator, new_alias}
use kubecrtutils.ClusterDefs.{
  Definition, State, Progress, going, reported, refused, out_of_fuel, rounds, each, restart,
  process, skipped, use_main, fall_back, note_fallback, add_found, set_missing, continue,
  default_name,
}
use kubecrtutils.ClusterDefs.Steps.{
  After, Branches, each-After, lookup-add_clusters, get_cluster-Lacks,
}
use kubecrtutils.ClusterDefs.Covers.{Named, name-new_alias, clusters-note_fallback, default-Lacks}

-- a result was reached
unfoldable pub returns : Progress → Bool
returns out_of_fuel = false
returns (going s) = true
returns (reported e ctx s) = true
returns (refused e s) = true

pub continue-returns :
    (p : Progress) (f : State → Progress)
    → returns p ≡ true
    → ((s : State) → returns (f s) ≡ true)
    → returns (continue p f) ≡ true
unfolding returns continue
continue-returns (going s) f h next = next s
continue-returns (reported e ctx s) f h next = refl
continue-returns (refused e s) f h next = refl
continue-returns out_of_fuel f h next = h

After-returns :
    (P : State → Type 0) (p : Progress) (f : State → Progress)
    → returns p ≡ true
    → After P (λ s. true ≡ true) p
    → ((s : State) → P s → returns (f s) ≡ true)
    → returns (continue p f) ≡ true
unfolding returns continue After
After-returns P (going s) f h p next = next s p
After-returns P (reported e ctx s) f h p next = refl
After-returns P (refused e s) f h p next = refl
After-returns P out_of_fuel f h p next = h

module _ (definition : Text → Definition) (main : Definition) (main_error : Option Text)
    (required : List Text) where
  process-returns :
      (n : Text) (s : State) → returns (process definition main main_error required n s) ≡ true
  unfolding process fall_back use_main returns
  process-returns n s = ground arith

  each-returns :
      (names : List Text) (s : State)
      → returns (each definition main main_error required names s) ≡ true
  unfolding each returns continue
  each-returns [] s = refl
  each-returns (n ∷ names) s =
      continue-returns (process definition main main_error required n s)
        (each definition main main_error required names) (process-returns n s) (each-returns names)

  -- what is left to find among the names of interest
  unfoldable pub left : List Text → State → ℕ
  left us s =
      count (λ u. is_some (lookup u s.clusters.elements)) us + count (λ u. elem u s.intermediate) us

  -- with the one that this round has found
  weight : List Text → State → ℕ
  weight us s = (if s.found then 1 else 0) + left us s

  weight-add :
      (us : List Text) (n : Text) (e : Equivalent) (s : State)
      → e.own.name ≡ n
      → lookup n s.clusters.elements ≡ none
      → elem n us ≡ true
      → weight us (add_found e s) ≤ weight us s
  unfolding weight left add_found
  weight-add us n e s named new is_in =
      let unknown = subst (λ x. lookup x s.clusters.elements ≡ none) (sym named) new in
      let drop =
        count-drop (λ u. is_some (lookup u s.clusters.elements))
          (λ u. is_some (lookup u (add_found e s).clusters.elements)) n us
          (λ u h. rw (lookup-add_clusters u e s.clusters) (ground (arith, unknown, h)))
          (ap is_some new)
          (rw (lookup-add_clusters n e s.clusters)
            (ground (arith, unknown, named, ==_iff e.own.name n)))
          is_in in
      ground (arith, drop)

  weight-missing : (us : List Text) (s : State) → weight us (set_missing s) ≡ weight us s
  unfolding weight left set_missing
  weight-missing us s = refl

  weight-restart : (us : List Text) (s : State) → weight us (restart s) ≤ left us s
  unfolding weight left restart
  weight-restart us s = omega arith

  left-found :
      (us : List Text) (s t : State) (fuel : ℕ)
      → t.found ≡ true
      → weight us t ≤ left us s
      → left us s < suc fuel
      → left us t < fuel
  unfolding weight
  left-found us s t fuel found small enough = ground (arith, found, small, enough)

  weight-note :
      (us : List Text) (fb : Text) (s : State)
      → elem fb us ≡ true
      → weight us (note_fallback definition main main_error required fb s) ≤ weight us s
  unfolding weight left note_fallback
  weight-note us fb s is_in =
      elim (Bool-cases (not (elem fb s.intermediate) && not (elem fb required))) [
        | inl new ↦
            let drop =
              count-drop (λ u. elem u s.intermediate) (λ u. elem u (add fb s.intermediate)) fb us
                (λ u h. rw (elem-add u fb s.intermediate) (ground (arith, h))) (ground (arith, new))
                (rw (elem-add fb fb s.intermediate) (ground (arith, ==_self fb))) is_in in
            rw new (ground (arith, drop))
        | inr old ↦ rw old (ground arith)
      ]

  -- a name that is not skipped has no cluster yet
  lookup-live :
      (n : Text) (s : State)
      → Lacks separator n
      → skipped definition main main_error required n s ≡ false
      → lookup n s.clusters.elements ≡ none
  unfolding skipped
  lookup-live n s h live = sym (get_cluster-Lacks n s.clusters h) ∙ ground (arith, live)

  -- a step never adds weight
  weight-kept :
      (us names : List Text) (b : ℕ) (k : Text) (s : State)
      → Named definition main main_error required names
      → ((u : Text)
          → elem u names ≡ true
          → (elem u us ≡ true) × (elem (definition u).fallback us ≡ true))
      → elem k names ≡ true
      → weight us s ≤ b
      → Branches definition main main_error required (λ t. weight us t ≤ b) (λ t. true ≡ true) k s
  weight-kept us names b k s named inside is_in small =
      let noted = weight-note us (definition k).fallback s (inside k is_in).1 in
      let t = note_fallback definition main main_error required (definition k).fallback s in
      let same =
        clusters-note_fallback definition main main_error required (definition k).fallback s in
      record {
        stays = λ skip. small;
        fails = refl;
        fails_main = refl;
        makes = λ acc live e.
            let added =
              weight-add us k acc s (named.made k acc is_in e)
                (lookup-live k s (named.lacks k is_in) live) (inside k is_in).0 in
            omega (arith, added, small);
        misses = λ live. rw (weight-missing us s) small;
        stands = λ eff live ok.
            let added =
              weight-add us k (new_alias k eff) s (name-new_alias k eff)
                (lookup-live k s (named.lacks k is_in) live) (inside k is_in).0 in
            omega (arith, added, small);
        falls_main = λ acc live is_default no_default e.
            let added =
              weight-add us default_name acc t (named.main_made acc e)
                (ap (λ c. lookup default_name c.elements) same
                  ∙ (sym (get_cluster-Lacks default_name s.clusters default-Lacks) ∙ no_default))
                (subst (λ x. elem x us ≡ true) is_default (inside k is_in).1) in
            omega (arith, added, noted, small);
        waits = λ live. rw (weight-missing us t) (omega (arith, noted, small));
      }

  -- more fuel than there is left to find is enough
  pub rounds-return :
      (us names : List Text) (order : ℕ → List Text) (fuel i : ℕ) (s : State)
      → Named definition main main_error required names
      → ((u : Text)
          → elem u names ≡ true
          → (elem u us ≡ true) × (elem (definition u).fallback us ≡ true))
      → ((i : ℕ) (k : Text) → elem k (order i) ≡ elem k names)
      → left us s < fuel
      → returns (rounds definition main main_error required order fuel i s) ≡ true
  unfolding rounds returns
  rounds-return us names order zero i s named inside in_order enough = ground (arith, enough)
  rounds-return us names order (suc fuel) i s named inside in_order enough =
      After-returns (λ t. weight us t ≤ left us s)
        (each definition main main_error required (order i) (restart s)) _
        (each-returns (order i) (restart s))
        (each-After definition main main_error required (λ t. weight us t ≤ left us s)
          (λ t. true ≡ true) (order i) (restart s) (weight-restart us s)
          (λ k t is_in small.
            weight-kept us names (left us s) k t named inside (sym (in_order i k) ∙ is_in) small))
        (λ t small. elim (Bool-cases (t.missing && t.found)) [
          | inl more ↦ rw more (
              rounds-return us names order fuel (suc i) t named inside in_order
                (left-found us s t fuel (ground (arith, more)) small enough))
          | inr stop ↦ rw stop refl
        ])
