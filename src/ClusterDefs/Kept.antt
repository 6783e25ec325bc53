-- ===== src/ClusterDefs/Kept.antt =====
-- What `Validate` keeps of the clusters in every step, with or without an error.
use kubecrtutils.Prelude.{
  ℕ, ◌≡◌, sym, ◌∙◌, subst, true, false, not, ◌&&◌, List, [], ◌∷◌, Option, none, some, elem, is_some,
}
use kubecrtutils.Prelude.Text.{Text, text_eq}
use kubecrtutils.Fleet.{Clusters, Equivalent, add_clusters, new_alias, new_clusters}
use kubecrtutils.ClusterDefs.{
  Definition, State, Progress, going, reported, refused, out_of_fuel, created, Ranges, rounds,
  resolve, conclude, restart, Definitions, validate, finish, fail, effective_required, disable,
  add_found, set_missing, note_fallback,
}
use kubecrtutils.ClusterDefs.Steps.{After, After-continue, Branches}
use kubecrtutils.ClusterDefs.Loops.{start, rounds-kept, conclude-After}
use kubecrtutils.ClusterDefs.Covers.{clusters-note_fallback}
use kubecrtutils.ClusterDefs.Accepted.{validate-fresh, validate-failed}

module _ (definition : Text → Definition) (main : Definition) (main_error : Option Text)
    (required names : List Text) (P : Clusters → Type 0) where
  -- the clusters that are added keep the property
  pub record Keeps : Type 0 where
    pub makes :
        (k : Text) (acc : Equivalent) (c : Clusters)
        → elem k names ≡ true
        → (definition k).create ≡ created acc
        → P c
        → P (add_clusters (acc ∷ []) c).1
    pub falls_main :
        (acc : Equivalent) (c : Clusters)
        → main.create ≡ created acc
        → P c
        → P (add_clusters (acc ∷ []) c).1
    pub stands :
        (k : Text) (eff : Equivalent) (c : Clusters)
        → elem k names ≡ true
        → (not (definition k).accept_fleet && is_some eff.as_fleet && elem k required) ≡ false
        → P c
        → P (add_clusters (new_alias k eff ∷ []) c).1

  step-kept :
      Keeps
      → (k : Text) (s : State) → elem k names ≡ true
      → P s.clusters
      → Branches definition main main_error required (λ t. P t.clusters) (λ t. P t.clusters) k s
  unfolding add_found set_missing
  step-kept keeps k s is_in p =
      let noted =
        subst P
          (sym
            (clusters-note_fallback definition main main_error required (definition k).fallback s))
          p in
      let t = note_fallback definition main main_error required (definition k).fallback s in
      record {
        stays = λ skip. p;
        fails = p;
        fails_main = noted;
        makes = λ acc live e. keeps.makes k acc s.clusters is_in e p;
        misses = λ live. p;
        stands = λ eff live ok. keeps.stands k eff s.clusters is_in ok p;
        falls_main = λ acc live is_default no_default e. keeps.falls_main acc t.clusters e noted;
        waits = λ live. noted;
      }

  pub resolve-kept :
      (fuel : ℕ) (r : Ranges)
      → Keeps
      → P new_clusters
      → ((i : ℕ) (k : Text) → elem k (r.rounds i) ≡ elem k names)
      → After
          (λ s. P s.clusters)
          (λ s. P s.clusters)
          (resolve definition main main_error required fuel r)
  unfolding resolve restart
  resolve-kept fuel r keeps p in_rounds =
      After-continue (λ s. P s.clusters) (λ s. P s.clusters) (λ s. P s.clusters)
        (rounds definition main main_error required r.rounds fuel 0 start)
        (conclude definition main main_error required r.check)
        (rounds-kept definition main main_error required (λ s. P s.clusters) (λ s. P s.clusters)
          r.rounds fuel 0 start p (λ t q. q)
          (λ i k t is_in q. step-kept keeps k t (sym (in_rounds i k) ∙ is_in) q))
        (λ s q.
          conclude-After definition main main_error required (λ s. P s.clusters) (λ s. P s.clusters)
            r.check s q (λ m. q) (λ all. q))

module _ {L : Type 0} (add_error : Option Text → L → L)
    (wrap : Option Text → List Text → Option Text) (get_error : L → Option Text)
    (P : Clusters → Type 0)
    (P-disable : (rest : List Text) (c : Clusters) → P c → P (disable rest c)) where
  finish-kept :
      (rest : List Text) (l : L) (p : Progress) (err : Option Text) (d : Definitions L)
      (c : Clusters)
      → After (λ s. P s.clusters) (λ s. P s.clusters) p
      → finish add_error wrap get_error rest l p ≡ some (err, d)
      → d.clusters ≡ some c
      → P c
  unfolding finish fail After
  finish-kept rest l (going s) err d c q h e = subst P (cc (h, e)) (P-disable rest s.clusters q)
  finish-kept rest l (reported x ctx s) err d c q h e = subst P (cc (h, e)) q
  finish-kept rest l (refused x s) err d c q h e = subst P (cc (h, e)) q
  finish-kept rest l out_of_fuel err d c q h e = absurd (cc h)

  -- a property of the clusters that every step keeps holds of the clusters of `Validate`
  pub validate-kept :
      (definition : Text → Definition) (main : Definition) (main_error : Option Text)
      (used names : List Text) (set_error : Option Text) (fuel : ℕ) (r : Ranges)
      (d d' : Definitions L) (err : Option Text) (c : Clusters)
      → Keeps definition main main_error (effective_required used names) names P
      → P new_clusters
      → ((i : ℕ) (k : Text) → elem k (r.rounds i) ≡ elem k names)
      → d.clusters ≡ none
      → get_error d.errlist ≡ none
      → validate add_error wrap get_error definition main main_error used names set_error fuel r d
        ≡ some (err, d')
      → d'.clusters ≡ some c
      → P c
  unfolding fail
  validate-kept definition main main_error used names (some x) fuel r d d' err c keeps p in_rounds
        fresh clean h e =
      absurd (
        cc (
          sym (
                validate-failed add_error wrap get_error definition main main_error used names fuel
                  r d fresh clean x)
              ∙ h,
          fresh,
          e,
        ))
  validate-kept definition main main_error used names none fuel r d d' err c keeps p in_rounds fresh
        clean h e =
      finish-kept r.rest d.errlist
        (resolve definition main main_error (effective_required used names) fuel r) err d' c
        (resolve-kept definition main main_error (effective_required used names) names P fuel r
          keeps p in_rounds)
        (sym (
            validate-fresh add_error wrap get_error definition main main_error used names fuel r d
              fresh clean)
          ∙ h)
        e
