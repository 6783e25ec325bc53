-- ===== src/ControllerDef/Unique.antt =====
-- The names of the indices of a controller are unique, and the clusters that it needs are declared.
use kubecrtutils.Prelude.{
  ◌≡◌, refl, ap, ◌∙◌, false, ◌&&◌, ◌||◌, List, [], ◌∷◌, Option, ◌==◌, is_some, arith, ==_iff,
  Bool-cases, inl, inr,
}
use kubecrtutils.Prelude.Text.{Text, text_eq}
use kubecrtutils.Maps.{GoMap, lookup, insert, lookup-insert}
use kubecrtutils.Mapping.{Names}
use kubecrtutils.ControllerDef.{
  Index, Definition, define, taken, complain, check_index, add_foreign, add_index, import_index,
  add_trigger, in_group, with_finalizer, use_clusters, use_components, compose_name, define_index,
  duplicate,
}

-- a name is in one of the three groups of indices at most
unfoldable pub IsUnique : {L : Type 0} → Definition L → Type 0
IsUnique d =
    (n : Text)
    → ((is_some (lookup n d.indices) && is_some (lookup n d.imports)) ≡ false)
      × ((is_some (lookup n d.indices) && is_some (lookup n d.foreign)) ≡ false)
      × ((is_some (lookup n d.imports) && is_some (lookup n d.foreign)) ≡ false)

is_some-insert :
    (j k : Text) (i : Index) (m : GoMap Text Index)
    → is_some (lookup j (insert k i m)) ≡ ((k == j) || is_some (lookup j m))
is_some-insert j k i m = ap is_some (lookup-insert j k i m) ∙ ground arith

module _ {L : Type 0} (add_error : Option Text → L → L)
    (wrap : Option Text → List Text → Option Text) where
  add_foreign-IsUnique :
      (indices : List Index) (d : Definition L)
      → IsUnique d
      → IsUnique (add_foreign add_error wrap indices d)
  unfolding add_foreign IsUnique taken complain
  add_foreign-IsUnique [] d h = h
  add_foreign-IsUnique (i ∷ indices) d h = elim (Bool-cases (taken i.name d)) [
    | inl known ↦
        rw (add_foreign, known)
          (add_foreign-IsUnique indices (complain add_error wrap (duplicate i.name) d) h)
    | inr new ↦
        rw (add_foreign, new)
          (add_foreign-IsUnique indices (record d { foreign = insert i.name i d.foreign })
            (λ n. ground (
              arith,
              h n,
              new,
              is_some-insert n i.name i d.foreign,
              ==_iff i.name n,
              ap (λ x. is_some (lookup x d.indices)),
              ap (λ x. is_some (lookup x d.imports)),
            )))
  ]

  add_index-IsUnique :
      (name : Text) (d : Definition L) → IsUnique d → IsUnique (add_index add_error wrap name d)
  unfolding add_index IsUnique taken complain check_index define_index
  add_index-IsUnique name d h = elim (Bool-cases (taken (compose_name name d.cluster) d)) [
    | inl known ↦ rw (add_index, known) h
    | inr new ↦
        rw (add_index, new)
          (λ n. ground (
            arith,
            h n,
            new,
            is_some-insert n (compose_name name d.cluster) (define_index name d.cluster) d.indices,
            ==_iff (compose_name name d.cluster) n,
            ap (λ x. is_some (lookup x d.imports)),
            ap (λ x. is_some (lookup x d.foreign)),
          ))
  ]

  import_index-IsUnique :
      (i : Index) (d : Definition L) → IsUnique d → IsUnique (import_index add_error wrap i d)
  unfolding import_index IsUnique taken complain check_index
  import_index-IsUnique i d h = elim (Bool-cases (taken i.name d)) [
    | inl known ↦ rw (import_index, known) h
    | inr new ↦
        rw (import_index, new)
          (λ n. ground (
            arith,
            h n,
            new,
            is_some-insert n i.name i d.imports,
            ==_iff i.name n,
            ap (λ x. is_some (lookup x d.indices)),
            ap (λ x. is_some (lookup x d.foreign)),
          ))
  ]

  add_trigger-IsUnique :
      (triggers : List Text) (d : Definition L)
      → IsUnique d
      → IsUnique (add_trigger add_error wrap triggers d)
  unfolding add_trigger IsUnique
  add_trigger-IsUnique [] d h = h
  add_trigger-IsUnique (t ∷ triggers) d h = add_trigger-IsUnique triggers _ h

  -- the definitions that the methods of the composition interface make
  pub data Built : Definition L → Type 0 where
    defined : (name cluster : Text) (l : L) → Built (define name cluster l)
    with_foreign :
        (indices : List Index) (d : Definition L)
        → Built d
        → Built (add_foreign add_error wrap indices d)
    with_index :
        (name : Text) (d : Definition L) → Built d → Built (add_index add_error wrap name d)
    with_import : (i : Index) (d : Definition L) → Built d → Built (import_index add_error wrap i d)
    with_triggers :
        (triggers : List Text) (d : Definition L)
        → Built d
        → Built (add_trigger add_error wrap triggers d)
    grouped : (group : Names) (d : Definition L) → Built d → Built (in_group add_error wrap group d)
    finalized : (s : Text) (d : Definition L) → Built d → Built (with_finalizer add_error wrap s d)
    with_clusters :
        (names : Names) (d : Definition L) → Built d → Built (use_clusters add_error wrap names d)
    with_components :
        (names : Names) (d : Definition L) → Built d → Built (use_components add_error wrap names d)

  -- However a definition of a controller is put together, no name of an index is in two of the groups of its
  -- own, its imported and its foreign indices.
  pub Built-IsUnique : (d : Definition L) → Built d → IsUnique d
  unfolding IsUnique define in_group with_finalizer use_clusters use_components lookup
  Built-IsUnique _ (defined name cluster l) = λ n. (refl, refl, refl)
  Built-IsUnique _ (with_foreign indices d b) = add_foreign-IsUnique indices d (Built-IsUnique d b)
  Built-IsUnique _ (with_index name d b) = add_index-IsUnique name d (Built-IsUnique d b)
  Built-IsUnique _ (with_import i d b) = import_index-IsUnique i d (Built-IsUnique d b)
  Built-IsUnique _ (with_triggers triggers d b) =
      add_trigger-IsUnique triggers d (Built-IsUnique d b)
  Built-IsUnique _ (grouped group d b) = Built-IsUnique d b
  Built-IsUnique _ (finalized s d b) = Built-IsUnique d b
  Built-IsUnique _ (with_clusters names d b) = Built-IsUnique d b
  Built-IsUnique _ (with_components names d b) = Built-IsUnique d b
