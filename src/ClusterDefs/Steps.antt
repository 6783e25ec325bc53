-- ===== src/ClusterDefs/Steps.antt =====
-- What a step of `Validate` can do, for the properties that its loops keep.
use kubecrtutils.Prelude.{
  ℕ, ◌≡◌, refl, ap, subst, true, false, not, ◌&&◌, List, [], ◌∷◌, Option, none, some, if◌then◌else◌,
  elem, is_some, arith, ==_iff, ==_self, Bool-cases, Option-cases, ◌==◌, nat_eq, length, ◌⊎◌, inl,
  inr,
}
use kubecrtutils.Prelude.Text.{Text, codes, text_eq}
use kubecrtutils.Strings.{cut, Lacks}
use kubecrtutils.Maps.{GoMap, lookup, insert, lookup-insert}
use kubecrtutils.Fleet.{
  Equivalent, Clusters, get_cluster, add_clusters, add_elements, separator, split_name, new_alias,
  found_multi, added,
}
use kubecrtutils.Group.{exists_text}
use kubecrtutils.ClusterDefs.{
  Created, create_error, not_configured, created, Definition, State, Progress, going, reported,
  refused, out_of_fuel, add_found, set_missing, skipped, note_fallback, use_main, fall_back,
  process, each, default_name, continue,
}

cut-Lacks : (sep : ℕ) (n : Text) → Lacks sep n → cut sep n ≡ none
unfolding cut
cut-Lacks sep [] h = refl
cut-Lacks sep (c ∷ n) (ne, h) = ground (arith, cut-Lacks sep n h, ==_iff c sep)

split_name-Lacks : (n : Text) → Lacks separator n → split_name n ≡ ([], n)
unfolding split_name
split_name-Lacks n h = rw (split_name, cut-Lacks separator n h) refl

-- a name without a separator is looked up in the group
pub get_cluster-Lacks :
    (n : Text) (c : Clusters) → Lacks separator n → get_cluster n c ≡ lookup n c.elements
unfolding get_cluster
get_cluster-Lacks n c h = rw (get_cluster, split_name-Lacks n h) refl

add_elements-known :
    (e old : Equivalent) (m : GoMap Text Equivalent)
    → lookup e.own.name m ≡ some old
    → add_elements (e ∷ []) none m ≡ (some (exists_text (codes "cluster") e.own.name), m)
unfolding add_elements
add_elements-known e old m eq = rw (add_elements, eq) refl

add_elements-new :
    (e : Equivalent) (m : GoMap Text Equivalent)
    → lookup e.own.name m ≡ none
    → add_elements (e ∷ []) none m ≡ (none, insert e.own.name e m)
unfolding add_elements
add_elements-new e m eq = rw (add_elements, eq) refl

-- adding one cluster, when its name is taken and when it is not
pub add_clusters-known :
    (e old : Equivalent) (c : Clusters)
    → lookup e.own.name c.elements ≡ some old
    → (add_clusters (e ∷ []) c).1 ≡ c
unfolding add_clusters added
add_clusters-known e old c eq =
    ap (λ q. (added (e ∷ []) c q).1) (add_elements-known e old c.elements eq)

pub add_clusters-new :
    (e : Equivalent) (c : Clusters)
    → lookup e.own.name c.elements ≡ none
    → (add_clusters (e ∷ []) c).1 ≡ record {
      elements = insert e.own.name e c.elements;
      multi =
          if c.multi
          then true
          else found_multi (e ∷ []) (length (insert e.own.name e c.elements)) false;
      disabled = c.disabled;
    }
unfolding add_clusters added
add_clusters-new e c eq = ap (λ q. (added (e ∷ []) c q).1) (add_elements-new e c.elements eq)

-- A cluster that is added is found under its name, unless there is one, and the others are found
-- as before.
pub lookup-add_clusters :
    (k : Text) (e : Equivalent) (c : Clusters)
    → lookup k (add_clusters (e ∷ []) c).1.elements ≡ (
        if is_some (lookup e.own.name c.elements)
        then lookup k c.elements
        else if e.own.name == k
        then some e
        else lookup k c.elements)
lookup-add_clusters k e c = elim (Option-cases (lookup e.own.name c.elements)) [
  | inl eq ↦ rw (eq, add_clusters-new e c eq, lookup-insert k e.own.name e c.elements) refl
  | inr (old, eq) ↦ rw (add_clusters-known e old c eq, eq) refl
]

-- a predicate of the states that a step leads to, and one of those that it fails in
unfoldable pub After : (State → Type 0) → (State → Type 0) → Progress → Type 0
After P Q (going s) = P s
After P Q (reported e ctx s) = Q s
After P Q (refused e s) = Q s
After P Q out_of_fuel = true ≡ true

pub After-continue :
    (P R Q : State → Type 0) (p : Progress) (f : State → Progress)
    → After P Q p
    → ((s : State) → P s → After R Q (f s))
    → After R Q (continue p f)
unfolding After continue
After-continue P R Q (going s) f h step = step s h
After-continue P R Q (reported e ctx s) f h step = h
After-continue P R Q (refused e s) f h step = h
After-continue P R Q out_of_fuel f h step = h

pub created-cases :
    (c : Created)
    → ((e : Text) × (c ≡ create_error e))
      ⊎ ((c ≡ not_configured) ⊎ ((acc : Equivalent) × (c ≡ created acc)))
created-cases (create_error e) = inl (e, refl)
created-cases not_configured = inr (inl refl)
created-cases (created acc) = inr (inr (acc, refl))

module _ (definition : Text → Definition) (main : Definition) (main_error : Option Text)
    (required : List Text) where
  -- what each branch of the body has to show
  pub record Branches (P Q : State → Type 0) (n : Text) (s : State) : Type 0 where
    pub stays : skipped definition main main_error required n s ≡ true → P s
    pub fails : Q s
    pub fails_main : Q (note_fallback definition main main_error required (definition n).fallback s)
    pub makes :
        (acc : Equivalent)
        → skipped definition main main_error required n s ≡ false
        → (definition n).create ≡ created acc
        → P (add_found acc s)
    pub misses : skipped definition main main_error required n s ≡ false → P (set_missing s)
    pub stands :
        (eff : Equivalent)
        → skipped definition main main_error required n s ≡ false
        → (not (definition n).accept_fleet && is_some eff.as_fleet && elem n required) ≡ false
        → P (add_found (new_alias n eff) s)
    pub falls_main :
        (acc : Equivalent)
        → skipped definition main main_error required n s ≡ false
        → (definition n).fallback ≡ default_name
        → get_cluster default_name s.clusters ≡ none
        → main.create ≡ created acc
        → P (
            add_found acc
              (note_fallback definition main main_error required (definition n).fallback s))
    pub waits :
        skipped definition main main_error required n s ≡ false
        → P (
            set_missing
              (note_fallback definition main main_error required (definition n).fallback s))

  module _ (P Q : State → Type 0) where
    use_main-After :
        (n : Text) (s : State)
        → Branches P Q n s
        → skipped definition main main_error required n s ≡ false
        → (definition n).fallback ≡ default_name
        → get_cluster default_name s.clusters ≡ none
        → After P Q (
            use_main definition main main_error required
              (note_fallback definition main main_error required (definition n).fallback s))
    unfolding use_main After
    use_main-After n s b live is_default no_default = elim (Option-cases main_error) [
      | inr (e, failed) ↦ rw (use_main, failed) b.fails_main
      | inl ok ↦ elim (created-cases main.create) [
        | inl (e, failed) ↦ rw (use_main, ok, failed) b.fails_main
        | inr (inl nothing) ↦ rw (use_main, ok, nothing) (b.waits live)
        | inr (inr (acc, made)) ↦
            rw (use_main, ok, made) (b.falls_main acc live is_default no_default made)
      ]
    ]

    fall_back-After :
        (n : Text) (s : State)
        → Branches P Q n s
        → skipped definition main main_error required n s ≡ false
        → After P Q (fall_back definition main main_error required n s)
    unfolding fall_back After
    fall_back-After n s b live = elim (Bool-cases ((definition n).fallback == [])) [
      | inl empty ↦ rw (fall_back, empty) (b.misses live)
      | inr full ↦ elim (Option-cases (get_cluster (definition n).fallback s.clusters)) [
        | inr (eff, has) ↦
            elim (Bool-cases
              (not (definition n).accept_fleet && is_some eff.as_fleet && elem n required)) [
                | inl refuses ↦ rw (fall_back, full, has, refuses) b.fails
                | inr ok ↦ rw (fall_back, full, has, ok) (b.stands eff live ok)
              ]
        | inl hasnt ↦ elim (Bool-cases ((definition n).fallback == default_name)) [
          | inl is_default ↦
              rw (fall_back, full, hasnt, is_default)
                (use_main-After n s b live
                  ((==_iff (definition n).fallback default_name).0 is_default)
                  (subst (λ x. get_cluster x s.clusters ≡ none)
                    ((==_iff (definition n).fallback default_name).0 is_default) hasnt))
          | inr other ↦ rw (fall_back, full, hasnt, other) (b.waits live)
        ]
      ]
    ]

    -- the body of the inner loop
    pub process-After :
        (n : Text) (s : State)
        → Branches P Q n s
        → After P Q (process definition main main_error required n s)
    unfolding process After
    process-After n s b = elim (Bool-cases (skipped definition main main_error required n s)) [
      | inl skip ↦ rw (process, skip) (b.stays skip)
      | inr live ↦ elim (created-cases (definition n).create) [
        | inl (e, failed) ↦ rw (process, live, failed) b.fails
        | inr (inl nothing) ↦ rw (process, live, nothing) (fall_back-After n s b live)
        | inr (inr (acc, made)) ↦ rw (process, live, made) (b.makes acc live made)
      ]
    ]

    -- the inner loop, where a predicate of the names that are done and the state is kept
    pub each-After :
        (names : List Text) (s : State)
        → P s
        → ((n : Text) (t : State) → elem n names ≡ true → P t → Branches P Q n t)
        → After P Q (each definition main main_error required names s)
    unfolding each After
    each-After [] s p step = p
    each-After (n ∷ names) s p step =
        After-continue P P Q (process definition main main_error required n s)
          (each definition main main_error required names)
          (process-After n s (step n s (ground (arith, ==_self n)) p))
          (λ t h. each-After names t h (λ k u in_rest. step k u (ground (arith, in_rest))))
