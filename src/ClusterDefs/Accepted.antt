-- ===== src/ClusterDefs/Accepted.antt =====
-- What `Validate` promises when it returns no error.
use kubecrtutils.Prelude.{
  ℕ, ◌≡◌, ◌≢◌, refl, sym, ◌∙◌, true, false, ◌||◌, List, [], ◌∷◌, Option, none, some, elem, is_some,
  Bool-cases, inl, inr, ◌⊎◌, arith,
}
use kubecrtutils.Prelude.Text.{Text, codes, text_eq}
use kubecrtutils.Strings.{Lacks}
use kubecrtutils.Fleet.{get_cluster, Clusters, Equivalent, separator}
use kubecrtutils.Maps.Sets.{add}
use kubecrtutils.ClusterDefs.{
  Definition, State, Progress, going, reported, refused, out_of_fuel, Ranges, rounds, resolve,
  skipped, wanted, Definitions, validate, disable, finish, fail, restart, conclude, created,
  default_name, effective_required,
}
use kubecrtutils.Group.{report, error_of}
use kubecrtutils.ClusterDefs.Steps.{After, After-continue}
use kubecrtutils.ClusterDefs.Loops.{rounds-After, conclude-After, start}
use kubecrtutils.ClusterDefs.Covers.{has, Covered, Named, Found, each-reaches}

pub get_cluster-elements :
    (n : Text) (c d : Clusters) → c.elements ≡ d.elements → get_cluster n c ≡ get_cluster n d
unfolding get_cluster
get_cluster-elements n c d e = rw (get_cluster, e) refl

elements-disable : (names : List Text) (c : Clusters) → (disable names c).elements ≡ c.elements
unfolding disable
elements-disable [] c = refl
elements-disable (n ∷ names) c = elim (Bool-cases (is_some (get_cluster n c))) [
  | inl known ↦ rw (disable, known) (elements-disable names c)
  | inr unknown ↦
      rw (disable, unknown) (elements-disable names (record c { disabled = add n c.disabled }))
]

-- disabling names changes no cluster
pub get_cluster-disable :
    (n : Text) (names : List Text) (c : Clusters)
    → get_cluster n (disable names c) ≡ get_cluster n c
get_cluster-disable n names c =
    get_cluster-elements n (disable names c) c (elements-disable names c)

module _ (definition : Text → Definition) (main : Definition) (main_error : Option Text)
    (required : List Text) where
  Covered-disable :
      (n : Text) (rest : List Text) (c : Clusters)
      → Covered definition main main_error required n c
      → (has n (disable rest c) ≡ true)
        ⊎ (((definition n).fallback ≡ default_name) × (has default_name (disable rest c) ≡ true))
  unfolding Covered
  Covered-disable n rest c covered =
      rw (get_cluster-disable n rest c, get_cluster-disable default_name rest c) covered

  resolve-covers :
      (n : Text) (names : List Text) (fuel : ℕ) (r : Ranges)
      → Named definition main main_error required names
      → ((i : ℕ) (k : Text) → elem k (r.rounds i) ≡ elem k names)
      → ((k : Text) → elem k r.check ≡ elem k names)
      → elem n names ≡ true
      → elem n required ≡ true
      → After
          (λ s. Covered definition main main_error required n s.clusters)
          (λ s. true ≡ true)
          (resolve definition main main_error required fuel r)
  unfolding resolve Covered Found skipped wanted
  resolve-covers n names fuel r named in_rounds in_check known needed =
      After-continue (Found definition main main_error required n)
        (λ s. Covered definition main main_error required n s.clusters) (λ s. true ≡ true)
        (rounds definition main main_error required r.rounds fuel 0 start)
        (conclude definition main main_error required r.check)
        (rounds-After definition main main_error required
          (Found definition main main_error required n) (λ s. true ≡ true) (λ s. true ≡ true)
          r.rounds fuel 0 start refl (λ t p. refl)
          (λ i t u.
            each-reaches definition main main_error required n names (r.rounds i) (restart t) named
              known needed (in_rounds i n ∙ known)))
        (λ s found.
          conclude-After definition main main_error required
            (λ s. Covered definition main main_error required n s.clusters) (λ s. true ≡ true)
            r.check s refl found (λ all. inl (ground (arith, all n (in_check n ∙ known), needed))))

module _ {L : Type 0} (add_error : Option Text → L → L)
    (wrap : Option Text → List Text → Option Text) (get_error : L → Option Text) where
  -- what is returned for a failure is an error
  pub fail-some :
      (e : Text) (ctx : List Text) (c : Option Clusters) (l : L)
      → ((e : Text) (ctx : List Text) → wrap (some e) ctx ≢ none)
      → (fail add_error wrap get_error e ctx c l).0 ≢ none
  unfolding fail report error_of
  fail-some e ctx c l wraps h = wraps e ctx h

  -- without an error the work was not stopped
  finish-accepted :
      (R : State → Type 0) (rest : List Text) (l : L) (p : Progress) (d : Definitions L)
      → ((e : Text) (ctx : List Text) → wrap (some e) ctx ≢ none)
      → After R (λ s. true ≡ true) p
      → finish add_error wrap get_error rest l p ≡ some (none, d)
      → (s : State) × R s × (d.clusters ≡ some (disable rest s.clusters))
  unfolding finish After
  finish-accepted R rest l (going s) d wraps r h = (s, r, cc h)
  finish-accepted R rest l (reported e ctx s) d wraps r h =
      absurd (fail-some e ctx (some s.clusters) l wraps (cc h))
  finish-accepted R rest l (refused e s) d wraps r h = absurd (cc h)
  finish-accepted R rest l out_of_fuel d wraps r h = absurd (cc h)

  module _ (definition : Text → Definition) (main : Definition) (main_error : Option Text)
      (used names : List Text) (fuel : ℕ) (r : Ranges) (d : Definitions L)
      (fresh : d.clusters ≡ none) (clean : get_error d.errlist ≡ none) where
    not_yet : (is_some d.clusters || is_some (get_error d.errlist)) ≡ false
    not_yet = ground (arith, fresh, clean)

    -- the first `Validate` of definitions without an error
    pub validate-fresh :
        validate add_error wrap get_error definition main main_error used names none fuel r d
        ≡ finish add_error wrap get_error r.rest d.errlist
            (resolve definition main main_error (effective_required used names) fuel r)
    unfolding validate
    validate-fresh = rw (validate, not_yet) refl

    pub validate-failed :
        (e : Text)
        → validate add_error wrap get_error definition main main_error used names (some e) fuel r d
          ≡ some (fail add_error wrap get_error e (codes "validation" ∷ []) d.clusters d.errlist)
    unfolding validate
    validate-failed e = rw (validate, not_yet) refl

-- When `Validate` returns no error, every required definition has a cluster, unless it falls back
-- to the default cluster, which then exists. (No name holds a separator, every range has the names of the
-- definitions, a cluster is named after its definition, and a wrapped error is an error.)
pub validate_covers :
    {L : Type 0} (add_error : Option Text → L → L) (wrap : Option Text → List Text → Option Text)
    (get_error : L → Option Text) (definition : Text → Definition) (main : Definition)
    (main_error : Option Text) (used names : List Text) (set_error : Option Text) (fuel : ℕ)
    (r : Ranges) (d d' : Definitions L) (n : Text)
    → ((e : Text) (ctx : List Text) → wrap (some e) ctx ≢ none)
    → ((k : Text) → elem k names ≡ true → Lacks separator k)
    → ((k : Text) (acc : Equivalent)
        → elem k names ≡ true
        → (definition k).create ≡ created acc
        → acc.own.name ≡ k)
    → ((acc : Equivalent) → main.create ≡ created acc → acc.own.name ≡ default_name)
    → ((i : ℕ) (k : Text) → elem k (r.rounds i) ≡ elem k names)
    → ((k : Text) → elem k r.check ≡ elem k names)
    → d.clusters ≡ none
    → get_error d.errlist ≡ none
    → elem n names ≡ true
    → elem n (effective_required used names) ≡ true
    → validate add_error wrap get_error definition main main_error used names set_error fuel r d
      ≡ some (none, d')
    → (c : Clusters) × (d'.clusters ≡ some c)
      × ((has n c ≡ true)
          ⊎ (((definition n).fallback ≡ default_name) × (has default_name c ≡ true)))
validate_covers add_error wrap get_error definition main main_error used names (some e) fuel r d d'
      n wraps lacks made main_made in_rounds in_check fresh clean known needed accepted =
    absurd (
      fail-some add_error wrap get_error e (codes "validation" ∷ []) d.clusters d.errlist wraps (
        cc (
          sym (
            validate-failed add_error wrap get_error definition main main_error used names fuel r d
              fresh clean e)
          ∙ accepted)))
validate_covers add_error wrap get_error definition main main_error used names none fuel r d d' n
      wraps lacks made main_made in_rounds in_check fresh clean known needed accepted =
    let (s, covered, same) =
      finish-accepted add_error wrap get_error
        (λ s. Covered definition main main_error (effective_required used names) n s.clusters)
        r.rest d.errlist (resolve definition main main_error (effective_required used names) fuel r)
        d' wraps
        (resolve-covers definition main main_error (effective_required used names) n names fuel r
          (record { lacks = lacks; made = made; main_made = main_made }) in_rounds in_check known
          needed)
        (sym (
            validate-fresh add_error wrap get_error definition main main_error used names fuel r d
              fresh clean)
          ∙ accepted) in
    (
      disable r.rest s.clusters,
      same,
      Covered-disable definition main main_error (effective_required used names) n r.rest s.clusters
          covered,
    )
