-- ===== src/Owner/Annotation/RoundTrip.antt =====
-- What is put into the annotations of an object is read back.
use native.Mathlib.Nat.{zero-add, suc-add}
use kubecrtutils.Prelude.{
  ℕ, ◌+◌, ◌-◌, ◌≤◌, ◌≡◌, ◌≢◌, refl, false, List, [], ◌∷◌, ◌++◌, none, some, length, length-append,
  take, drop, All, arith, ◌==◌, ==_iff, nat_eq, ap, ◌∙◌, subst,
}
use kubecrtutils.Prelude.Text.{Text, text_eq}
use kubecrtutils.Strings.{split, join, Lacks}
use kubecrtutils.Strings.Split.{split-join, split-ne-nil, join-split, split-join_behind}
use kubecrtutils.Maps.{GoMap, lookup, insert, delete, lookup-insert, lookup-delete}
use kubecrtutils.Owner.Annotation.{
  Annotations, AnnotationType, Annotation, absent, found, annotation_type, checked, get,
  cross_namespace, front, back, field, for_cluster, group, kind, namespace, name, to_text, put,
  remove, cluster_id,
}

take-append : (l m : List Text) → take (length l) (l ++ m) ≡ l
take-append [] m = refl
take-append (x ∷ l) m = ap (λ (r : List Text). x ∷ r) (take-append l m)

drop-append : (l m : List Text) (k : ℕ) → drop (length l + k) (l ++ m) ≡ drop k m
drop-append [] m k = rw zero-add
drop-append (x ∷ l) m k = rw suc-add (drop-append l m k)

module _ (l : List Text) (g k ns n : Text) where
  abbrev behind : List Text
  behind = l ++ (g ∷ k ∷ ns ∷ n ∷ [])

  length-behind : (j : ℕ) → j ≤ 4 → length behind - j ≡ length l + (4 - j)
  length-behind j h = omega (arith, length-append l (g ∷ k ∷ ns ∷ n ∷ []))

  front-behind : front 4 behind ≡ l
  front-behind =
      ap (λ (i : ℕ). take i behind) (omega (arith, length-append l (g ∷ k ∷ ns ∷ n ∷ [])))
      ∙ take-append l (g ∷ k ∷ ns ∷ n ∷ [])

  back-behind : (j : ℕ) → j ≤ 4 → back j behind ≡ drop (4 - j) (g ∷ k ∷ ns ∷ n ∷ [])
  back-behind j h =
      ap (λ (i : ℕ). drop i behind) (length-behind j h)
      ∙ drop-append l (g ∷ k ∷ ns ∷ n ∷ []) (4 - j)

  head_or : List Text → Text
  head_or r = elim r [ [] ↦ [] | f ∷ _ ↦ f ]

  field-behind :
      (field 4 behind ≡ g) × (field 3 behind ≡ k) × (field 2 behind ≡ ns) × (field 1 behind ≡ n)
  unfolding head_or
  field-behind = (
    ap head_or (back-behind 4 (omega arith)),
    ap head_or (back-behind 3 (omega arith)),
    ap head_or (back-behind 2 (omega arith)),
    ap head_or (back-behind 1 (omega arith)),
  )

-- what an annotation says, with the cluster id `id`
abbrev pub Says : ℕ → Text → Annotation → Text → Text → Text → Text → Text → Type 0
Says sep default_id a id g k ns n =
    (cluster_id sep default_id a ≡ id)
    × (group a ≡ g)
    × (kind a ≡ k)
    × (namespace a ≡ ns)
    × (name a ≡ n)

Says-behind :
    (sep : ℕ) (default_id nm : Text) (l : List Text) (g k ns n : Text)
    → l ≢ []
    → Says sep default_id
        (record { name = nm; fields = l ++ (g ∷ k ∷ ns ∷ n ∷ []) })
        (join sep l)
        g
        k
        ns
        n
unfolding cluster_id group kind namespace name
Says-behind sep default_id nm [] g k ns n h = absurd (h refl)
Says-behind sep default_id nm (x ∷ l) g k ns n h =
    let (fg, fk, fns, fn) = field-behind (x ∷ l) g k ns n in
    let more : (length ((x ∷ l) ++ (g ∷ k ∷ ns ∷ n ∷ [])) == 4) ≡ false =
      ground (arith, length-append l (g ∷ k ∷ ns ∷ n ∷ [])) in
    (rw more (ap (join sep) (front-behind (x ∷ l) g k ns n)), fg, fk, fns, fn)

get-put-text :
    (t : AnnotationType) (a : Annotation) (sep : ℕ) (annos : Annotations)
    → t.name ≡ a.name
    → get t (put sep a annos) ≡ checked t (split t.separator (to_text sep a))
unfolding get put
get-put-text t a sep none e =
    ground (arith, lookup-insert t.name a.name (to_text sep a) [], ==_iff a.name t.name)
get-put-text t a sep (some m) e =
    ground (arith, lookup-insert t.name a.name (to_text sep a) m, ==_iff a.name t.name)

checked-found :
    (t : AnnotationType) (l : List Text) (g k ns n : Text)
    → checked t (l ++ (g ∷ k ∷ ns ∷ n ∷ []))
      ≡ found (record { name = t.name; fields = l ++ (g ∷ k ∷ ns ∷ n ∷ []) })
unfolding checked
checked-found t l g k ns n = ground (arith, length-append l (g ∷ k ∷ ns ∷ n ∷ []))

Says-four :
    (sep : ℕ) (default_id nm g k ns n : Text)
    → Says sep default_id (record { name = nm; fields = g ∷ k ∷ ns ∷ n ∷ [] }) default_id g k ns n
unfolding cluster_id group kind namespace name
Says-four sep default_id nm g k ns n = (refl, refl, refl, refl, refl)

module _ (sep : ℕ) (nm g k ns n : Text) (annos : Annotations) where
  abbrev t : AnnotationType
  t = annotation_type sep nm

  abbrev local : Annotation
  local = cross_namespace t g k ns n

  get-put-local :
      All (Lacks sep) (g ∷ k ∷ ns ∷ n ∷ [])
      → get t (put sep local annos) ≡ found (record { name = nm; fields = g ∷ k ∷ ns ∷ n ∷ [] })
  unfolding annotation_type cross_namespace to_text checked
  get-put-local h =
      get-put-text t local sep annos refl ∙ ap (checked t) (split-join sep g (k ∷ ns ∷ n ∷ []) h)

  get-put-remote :
      (id : Text)
      → All (Lacks sep) (g ∷ k ∷ ns ∷ n ∷ [])
      → get t (put sep (for_cluster id local) annos)
        ≡ found (record { name = nm; fields = split sep id ++ (g ∷ k ∷ ns ∷ n ∷ []) })
  unfolding annotation_type cross_namespace to_text for_cluster
  get-put-remote id h =
      get-put-text t (for_cluster id local) sep annos refl
      ∙ (ap (checked t) (split-join_behind sep id g (k ∷ ns ∷ n ∷ []) h)
          ∙ checked-found t (split sep id) g k ns n)

-- The annotation of an owner is read back as it was put into any annotations, if group, kind,
-- namespace and name hold no separator: with the default cluster id where none was given, and else
-- with the cluster id, which may hold separators.
pub get-put :
    (sep : ℕ) (nm g k ns n : Text) (annos : Annotations) (id default_id : Text)
    → All (Lacks sep) (g ∷ k ∷ ns ∷ n ∷ [])
    → ((a : Annotation) × (get
            (annotation_type sep nm)
            (put sep (cross_namespace (annotation_type sep nm) g k ns n) annos)
          ≡ found a)
        × Says sep default_id a default_id g k ns n)
      × ((a : Annotation) × (get
              (annotation_type sep nm)
              (put sep (for_cluster id (cross_namespace (annotation_type sep nm) g k ns n)) annos)
            ≡ found a)
          × Says sep default_id a id g k ns n)
get-put sep nm g k ns n annos id default_id h = (
  (
    record { name = nm; fields = g ∷ k ∷ ns ∷ n ∷ [] },
    get-put-local sep nm g k ns n annos h,
    Says-four sep default_id nm g k ns n,
  ),
  (
    record { name = nm; fields = split sep id ++ (g ∷ k ∷ ns ∷ n ∷ []) },
    get-put-remote sep nm g k ns n annos id h,
    subst
        (λ i.
          Says sep default_id (record { name = nm; fields = split sep id ++ (g ∷ k ∷ ns ∷ n ∷ []) })
            i g k ns n)
        (join-split sep id)
        (Says-behind sep default_id nm (split sep id) g k ns n (split-ne-nil sep id)),
  ),
)

-- After `Remove` the owner annotation is absent, and `Put` and `Remove` leave every other
-- annotation as it was.
pub get-remove :
    (sep : ℕ) (t : AnnotationType) (g k ns n : Text) (m : GoMap Text Text) (j : Text)
    → (get t (remove sep (cross_namespace t g k ns n) (some m)) ≡ absent)
      × (j ≢ t.name
          → (r : GoMap Text Text) × (put sep (cross_namespace t g k ns n) (some m) ≡ some r)
            × (lookup j r ≡ lookup j m)
            × ((q : GoMap Text Text) × (remove sep (cross_namespace t g k ns n) (some m) ≡ some q)
                × (lookup j q ≡ lookup j m)))
unfolding get put remove cross_namespace to_text
get-remove sep t g k ns n m j = (
  ground (arith, lookup-delete t.name t.name m, ==_iff t.name t.name),
  λ other. (
    insert t.name (join sep (g ∷ k ∷ ns ∷ n ∷ [])) m,
    refl,
    ground (arith, lookup-insert j t.name (join sep (g ∷ k ∷ ns ∷ n ∷ [])) m, ==_iff t.name j),
    (delete t.name m, refl, ground (arith, lookup-delete j t.name m, ==_iff t.name j)),
  ),
)
