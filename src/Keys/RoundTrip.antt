-- ===== src/Keys/RoundTrip.antt =====
-- Which keys are read back from their texts, and which index keys agree.
use kubecrtutils.Prelude.{
  ℕ, Bool, ◌≡◌, ◌≢◌, refl, sym, true, false, not, ◌&&◌, [], ◌∷◌, ◌++◌, none, some, All, arith, ap,
  ◌∙◌, ◌==◌, ==_iff, append_assoc, Bool-cases, inl, inr,
}
use kubecrtutils.Prelude.Text.{Text, text_eq}
use kubecrtutils.Strings.{split, join, Lacks}
use kubecrtutils.Strings.Split.{split-join}
use kubecrtutils.Kube.{NamespacedName, GroupKind}
use kubecrtutils.Keys.{
  GlobalKey, TypedGlobalKey, parse_global_key, parse_typed_key, global_key_of, typed_key_of, as_key,
  typed_as_key, map_to_index_key,
}

-- `NamespacedName.String`: namespace, separator and name
abbrev pub JoinsKey : ℕ → (NamespacedName → Text) → Type 0
JoinsKey sep key_text = (k : NamespacedName) → key_text k ≡ k.namespace ++ (sep ∷ k.name)

module _ (sep : ℕ) (key_text : NamespacedName → Text) (kind_text : GroupKind → Text)
    (joins : JoinsKey sep key_text) where
  as_key-join :
      (o : GlobalKey)
      → as_key sep key_text kind_text o
        ≡ join sep (o.cluster_name ∷ o.key.namespace ∷ o.key.name ∷ [])
  unfolding as_key join
  as_key-join o =
      rw (joins o.key)
        (append_assoc o.cluster_name (sep ∷ []) (o.key.namespace ++ (sep ∷ o.key.name)))

  -- A global key is read back from its text, if its parts hold no separator.
  pub parse-as_key :
      (o : GlobalKey)
      → All (Lacks sep) (o.cluster_name ∷ o.key.namespace ∷ o.key.name ∷ [])
      → parse_global_key sep key_text kind_text (as_key sep key_text kind_text o) ≡ some o
  unfolding parse_global_key
  parse-as_key o h =
      ap (λ (s : Text). global_key_of (split sep s)) (as_key-join o)
      ∙ ap global_key_of (split-join sep o.cluster_name (o.key.namespace ∷ o.key.name ∷ []) h)

  typed_as_key-join :
      (o : TypedGlobalKey)
      → o.group_kind.kind ≢ []
      → o.group_kind.group ≢ []
      → typed_as_key sep key_text kind_text true o
        ≡ join sep (o.cluster_name ∷ kind_text o.group_kind ∷ o.key.namespace ∷ o.key.name ∷ [])
  unfolding typed_as_key join
  typed_as_key-join o hk hg =
      let k : (o.group_kind.kind == []) ≡ false = ground (arith, ==_iff o.group_kind.kind []) in
      let g : (o.group_kind.group == []) ≡ false = ground (arith, ==_iff o.group_kind.group []) in
      rw (k, g, joins o.key) (simp append_assoc)

  typed_as_key_plain :
      (o : TypedGlobalKey)
      → typed_as_key sep key_text kind_text false o
        ≡ join sep (o.cluster_name ∷ o.key.namespace ∷ o.key.name ∷ [])
  unfolding typed_as_key join
  typed_as_key_plain o = rw (joins o.key) (simp append_assoc)

  -- The text that a typed key has, with or without its group kind, is never parsed as a typed key:
  -- the group and the kind make one field of it, and five fields are asked for. (No part, and not
  -- the text of the group kind, holds a separator.)
  pub parse-typed_as_key :
      (o : TypedGlobalKey) (use_gk : Bool)
      → All
          (Lacks sep)
          (o.cluster_name ∷ kind_text o.group_kind ∷ o.key.namespace ∷ o.key.name ∷ [])
      → parse_typed_key sep key_text kind_text (typed_as_key sep key_text kind_text use_gk o) ≡ none
  unfolding parse_typed_key
  parse-typed_as_key o use_gk (hc, (hg, h)) =
      elim (Bool-cases
        (use_gk && (not (o.group_kind.kind == []) && not (o.group_kind.group == [])))) [
          | inl full ↦
              ap (λ (s : Text). typed_key_of (split sep s)) (is_full full)
              ∙ ap typed_key_of (
                  split-join sep o.cluster_name
                    (kind_text o.group_kind ∷ o.key.namespace ∷ o.key.name ∷ []) (hc, (hg, h)))
          | inr plain ↦
              ap (λ (s : Text). typed_key_of (split sep s)) (is_plain plain)
              ∙ ap typed_key_of
                  (split-join sep o.cluster_name (o.key.namespace ∷ o.key.name ∷ []) (hc, h))
        ]
    where
      is_full :
          (use_gk && (not (o.group_kind.kind == []) && not (o.group_kind.group == []))) ≡ true
          → typed_as_key sep key_text kind_text use_gk o
            ≡ join sep (o.cluster_name ∷ kind_text o.group_kind ∷ o.key.namespace ∷ o.key.name ∷ [])
      is_full e =
          let u : use_gk ≡ true = ground arith in
          rw u (
            typed_as_key-join o (λ z. absurd (ground (arith, ==_iff o.group_kind.kind [])))
              (λ z. absurd (ground (arith, ==_iff o.group_kind.group []))))

      is_plain :
          (use_gk && (not (o.group_kind.kind == []) && not (o.group_kind.group == []))) ≡ false
          → typed_as_key sep key_text kind_text use_gk o
            ≡ join sep (o.cluster_name ∷ o.key.namespace ∷ o.key.name ∷ [])
      is_plain e = unfold typed_as_key in rw e (typed_as_key_plain o)

  -- For a local owner the index key of the owner index without a group kind is the one that
  -- `MapToIndexKey` makes of the object key; with a group kind the two differ, unless the namespace
  -- is spelled like the text of the group kind.
  pub index_keys :
      (k : NamespacedName) (gk : GroupKind)
      → (map_to_index_key sep key_text kind_text k []
          ≡ typed_as_key sep key_text kind_text false
              (record { cluster_name = []; key = k; group_kind = gk }))
        × (gk.kind ≢ []
            → gk.group ≢ []
            → All (Lacks sep) (kind_text gk ∷ k.namespace ∷ k.name ∷ [])
            → k.namespace ≢ kind_text gk
            → map_to_index_key sep key_text kind_text k (gk ∷ [])
              ≢ typed_as_key sep key_text kind_text true
                  (record { cluster_name = []; key = k; group_kind = gk }))
  index_keys k gk = (
    unfold map_to_index_key typed_as_key in refl,
    λ hk hg (lg, (ln, lm)) ne same.
        let left : map_to_index_key sep key_text kind_text k (gk ∷ [])
            ≡ join sep ([] ∷ k.namespace ∷ k.name ∷ kind_text gk ∷ []) =
          unfold map_to_index_key join in rw (joins k) (simp append_assoc) in
        let parts =
          sym (
            split-join sep [] (k.namespace ∷ k.name ∷ kind_text gk ∷ [])
              (tt, (ln, (lm.0, (lg, tt)))))
          ∙ (ap (split sep) (
                sym left
                ∙ (same
                    ∙ typed_as_key-join (record { cluster_name = []; key = k; group_kind = gk }) hk
                        hg))
              ∙ split-join sep [] (kind_text gk ∷ k.namespace ∷ k.name ∷ [])
                  (tt, (lg, (ln, lm)))) in
        ne (cc parts),
  )
