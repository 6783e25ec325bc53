-- ===== src/ClusterDefs/Covers.antt =====
-- What is true of the clusters that `Validate` accepts.
use kubecrtutils.Prelude.{
  ◌≡◌, refl, ap, sym, ◌∙◌, subst, Bool, true, false, List, [], ◌∷◌, Option, elem, is_some,
  Bool-cases, Option-cases, inl, inr, ◌⊎◌, arith, ==_iff, ◌==◌,
}
use kubecrtutils.Prelude.Text.{Text, text_eq}
use kubecrtutils.Strings.{Lacks}
use kubecrtutils.Strings.Split.{elem-Lacks}
use kubecrtutils.Maps.{lookup}
use kubecrtutils.Fleet.{
  get_cluster, Clusters, Equivalent, separator, add_clusters, new_alias, new_cluster_alias,
  new_fleet_alias,
}
use kubecrtutils.ClusterDefs.{
  Definition, State, each, skipped, wanted, add_found, set_missing, note_fallback, default_name,
  process, created,
}
use kubecrtutils.ClusterDefs.Steps.{
  After, After-continue, Branches, each-After, process-After, lookup-add_clusters,
  get_cluster-Lacks,
}

-- a name has a cluster
abbrev pub has : Text → Clusters → Bool
has n c = is_some (get_cluster n c)

has-lookup : (n : Text) (c : Clusters) → Lacks separator n → has n c ≡ is_some (lookup n c.elements)
has-lookup n c h = ap is_some (get_cluster-Lacks n c h)

-- what is known stays known
has-add :
    (n : Text) (e : Equivalent) (c : Clusters)
    → Lacks separator n
    → has n c ≡ true
    → has n (add_clusters (e ∷ []) c).1 ≡ true
has-add n e c h known =
    rw (has-lookup n (add_clusters (e ∷ []) c).1 h, lookup-add_clusters n e c)
      (ground (arith, sym (has-lookup n c h) ∙ known))

-- what is added is known
has-added :
    (n : Text) (e : Equivalent) (c : Clusters)
    → Lacks separator n
    → e.own.name ≡ n
    → has n (add_clusters (e ∷ []) c).1 ≡ true
has-added n e c h named =
    rw (has-lookup n (add_clusters (e ∷ []) c).1 h, lookup-add_clusters n e c)
      (ground (arith, named, ap (λ x. is_some (lookup x c.elements)) named, ==_iff e.own.name n))

-- an alias has the name that it is given
pub name-new_alias : (n : Text) (e : Equivalent) → (new_alias n e).own.name ≡ n
unfolding new_alias new_fleet_alias new_cluster_alias
name-new_alias n e = elim (Bool-cases (e.own.name == n)) [
  | inl same ↦ rw (new_alias, same) ((==_iff e.own.name n).0 same)
  | inr other ↦ elim (Option-cases e.as_fleet) [
    | inl nothing ↦ elim (Bool-cases (n == e.own.name)) [
      | inl same ↦
          rw (new_alias, other, nothing, new_cluster_alias, same)
            (sym ((==_iff n e.own.name).0 same))
      | inr differs ↦ rw (new_alias, other, nothing, new_cluster_alias, differs) refl
    ]
    | inr (f, is_fleet) ↦ elim (Bool-cases (f.name == n)) [
      | inl same ↦ rw (new_alias, other, is_fleet, new_fleet_alias, same) ((==_iff f.name n).0 same)
      | inr differs ↦ rw (new_alias, other, is_fleet, new_fleet_alias, differs) refl
    ]
  ]
]

pub default-Lacks : Lacks separator default_name
default-Lacks = elem-Lacks separator default_name refl

module _ (definition : Text → Definition) (main : Definition) (main_error : Option Text)
    (required : List Text) where
  -- a name has a cluster, or it falls back to the default cluster, which there is
  unfoldable pub Covered : Text → Clusters → Type 0
  Covered n c =
      (has n c ≡ true) ⊎ (((definition n).fallback ≡ default_name) × (has default_name c ≡ true))

  -- which holds if nothing was missed
  unfoldable pub Found : Text → State → Type 0
  Found n s = s.missing ≡ false → Covered n s.clusters

  Covered-add :
      (n : Text) (e : Equivalent) (c : Clusters)
      → Lacks separator n
      → Covered n c
      → Covered n (add_clusters (e ∷ []) c).1
  unfolding Covered
  Covered-add n e c h (inl known) = inl (has-add n e c h known)
  Covered-add n e c h (inr (falls, known)) =
      inr (falls, has-add default_name e c default-Lacks known)

  pub clusters-note_fallback :
      (fb : Text) (s : State)
      → (note_fallback definition main main_error required fb s).clusters ≡ s.clusters
  unfolding note_fallback
  clusters-note_fallback fb s = ground arith

  missing-note_fallback :
      (fb : Text) (s : State)
      → (note_fallback definition main main_error required fb s).missing ≡ s.missing
  unfolding note_fallback
  missing-note_fallback fb s = ground arith

  -- the steps for other names keep it
  kept :
      (n k : Text) (s : State)
      → Lacks separator n
      → Found n s
      → Branches definition main main_error required (Found n) (λ t. true ≡ true) k s
  unfolding Found add_found set_missing
  kept n k s h found = record {
    stays = λ skip. found;
    fails = refl;
    fails_main = refl;
    makes = λ acc live e m. Covered-add n acc s.clusters h (found m);
    misses = λ live m. ground (arith, m);
    stands = λ eff live ok m. Covered-add n (new_alias k eff) s.clusters h (found m);
    falls_main = λ acc live is_default no_default e m.
        Covered-add n acc
          (note_fallback definition main main_error required (definition k).fallback s).clusters h
          (subst (Covered n) (sym (clusters-note_fallback (definition k).fallback s))
            (found (sym (missing-note_fallback (definition k).fallback s) ∙ m)));
    waits = λ live m. ground (arith, m);
  }

  anything :
      (k : Text) (s : State)
      → Branches definition main main_error required (λ t. true ≡ true) (λ t. true ≡ true) k s
  anything k s = record {
    stays = λ skip. refl;
    fails = refl;
    fails_main = refl;
    makes = λ acc live e. refl;
    misses = λ live. refl;
    stands = λ eff live ok. refl;
    falls_main = λ acc live is_default no_default e. refl;
    waits = λ live. refl;
  }

  -- the step for a required name brings it about
  reached :
      (n : Text) (s : State)
      → Lacks separator n
      → elem n required ≡ true
      → ((acc : Equivalent) → (definition n).create ≡ created acc → acc.own.name ≡ n)
      → ((acc : Equivalent) → main.create ≡ created acc → acc.own.name ≡ default_name)
      → Branches definition main main_error required (Found n) (λ t. true ≡ true) n s
  unfolding Found add_found set_missing skipped wanted Covered
  reached n s h needed named main_named = record {
    stays = λ skip m. inl (ground (arith, skip, needed));
    fails = refl;
    fails_main = refl;
    makes = λ acc live e m. inl (has-added n acc s.clusters h (named acc e));
    misses = λ live m. ground (arith, m);
    stands =
        λ eff live ok m. inl (has-added n (new_alias n eff) s.clusters h (name-new_alias n eff));
    falls_main = λ acc live is_default no_default e m. inr (
      is_default,
      has-added default_name acc
          (note_fallback definition main main_error required (definition n).fallback s).clusters
          default-Lacks (main_named acc e),
    );
    waits = λ live m. ground (arith, m);
  }

  -- what is known of the definitions: their names, and those of the clusters that they make
  pub record Named (names : List Text) : Type 0 where
    pub lacks : (n : Text) → elem n names ≡ true → Lacks separator n
    pub made :
        (n : Text) (acc : Equivalent)
        → elem n names ≡ true
        → (definition n).create ≡ created acc
        → acc.own.name ≡ n
    pub main_made : (acc : Equivalent) → main.create ≡ created acc → acc.own.name ≡ default_name

  -- a range over the names brings it about for each of them
  pub each-reaches :
      (n : Text) (all names : List Text) (s : State)
      → Named all
      → elem n all ≡ true
      → elem n required ≡ true
      → elem n names ≡ true
      → After (Found n) (λ t. true ≡ true) (each definition main main_error required names s)
  unfolding each
  each-reaches n all [] s named known needed is_in = ground arith
  each-reaches n all (k ∷ names) s named known needed is_in = elim (Bool-cases (k == n)) [
    | inl same ↦
        subst
          (λ k.
            After (Found n) (λ t. true ≡ true)
              (each definition main main_error required (k ∷ names) s))
          (sym ((==_iff k n).0 same))
          (After-continue (Found n) (Found n) (λ t. true ≡ true)
            (process definition main main_error required n s)
            (each definition main main_error required names)
            (process-After definition main main_error required (Found n) (λ t. true ≡ true) n s
              (reached n s (named.lacks n known) needed (λ acc. named.made n acc known)
                named.main_made))
            (λ t found.
              each-After definition main main_error required (Found n) (λ t. true ≡ true) names t
                found (λ k t in_rest. kept n k t (named.lacks n known))))
    | inr other ↦
        After-continue (λ t. true ≡ true) (Found n) (λ t. true ≡ true)
          (process definition main main_error required k s)
          (each definition main main_error required names)
          (process-After definition main main_error required (λ t. true ≡ true) (λ t. true ≡ true) k
            s (anything k s))
          (λ t u. each-reaches n all names t named known needed (ground (arith, is_in, other)))
  ]
