-- ===== src/Replication/Namespaces.antt =====
-- When a target namespace is removed.
use kubecrtutils.Prelude.{
  ◌≡◌, ◌≢◌, refl, true, false, [], ◌∷◌, none, if◌then◌else◌, ◌==◌, ==_iff, arith, Bool-cases,
  List-cases, subst, sym, inl, inr, is_some, length, ltb, nat_eq, ◌⊎◌,
}
use kubecrtutils.Prelude.Text.{Text, text_eq}
use kubecrtutils.Maps.{GoMap, lookup}
use kubecrtutils.Kube.{NamespacedName, GroupKind, kind_eq}
use kubecrtutils.Replication.{
  Request, ResourceIndex, Kinds, DeleteAnswer, entries_of, last_entry, empty_elsewhere, index_of,
  remove_original, get_original,
}
use kubecrtutils.Replication.Index.{get-lookup}

last_entry-other :
    (m : GoMap Text Request) (n n' : Text)
    → is_some (lookup n' m) ≡ true
    → n ≢ n'
    → last_entry m n ≡ false
unfolding lookup last_entry
last_entry-other [] n n' h ne = cc h
last_entry-other ((k, r) ∷ []) n n' h ne = ground (arith, ==_iff k n, ==_iff k n')
last_entry-other (x ∷ (y ∷ m)) n n' h ne = refl

entries_of-nonempty :
    (i : ResourceIndex) (ns n : Text)
    → is_some (lookup n (entries_of i ns)) ≡ true
    → ((length i == 0) ≡ false) × (ltb 0 (length (entries_of i ns)) ≡ true)
unfolding lookup
entries_of-nonempty [] ns n h = absurd (unfold entries_of in cc h)
entries_of-nonempty (x ∷ i) ns n h = elim (List-cases (entries_of (x ∷ i) ns)) [
  | inl e ↦ absurd (ground arith)
  | inr (o, obs, e) ↦ (ground arith, rw e (ground arith))
]

index_of-cons :
    (gk' k : GroupKind) (i : ResourceIndex) (types : Kinds)
    → index_of gk' ((k, i) ∷ types) ≡ (if k == gk' then i else index_of gk' types)
unfolding index_of lookup
index_of-cons gk' k i types = ground arith

empty_elsewhere-other :
    (gk gk' : GroupKind) (ns n : Text) (types : Kinds)
    → is_some (lookup n (entries_of (index_of gk' types) ns)) ≡ true
    → gk ≢ gk'
    → empty_elsewhere gk ns types ≡ false
unfolding empty_elsewhere
empty_elsewhere-other gk gk' ns n [] h ne =
    absurd (unfold index_of in unfold entries_of in unfold lookup in cc h)
empty_elsewhere-other gk gk' ns n ((k, i) ∷ types) h ne = elim (Bool-cases (k == gk')) [
  | inl here ↦
      let (more, some_entry) =
        entries_of-nonempty i ns n (rw (index_of-cons gk' k i types, here) at h) in
      ground (arith, ==_iff k gk, ==_iff k gk')
  | inr there ↦
      let rest =
        empty_elsewhere-other gk gk' ns n types (rw (index_of-cons gk' k i types, there) at h) ne in
      ground arith
]

-- As long as the namespace of a removed original holds another one, of this kind or of another,
-- `RemoveOriginal` leaves the cluster as it is and reports no problem.
pub namespace_kept :
    {W : Type 0} (delete_ns : Text → W → W × DeleteAnswer) (gk gk' : GroupKind)
    (key : NamespacedName) (n : Text) (types : Kinds) (w : W)
    → is_some (get_original gk' (record { namespace = key.namespace; name = n }) types) ≡ true
    → (gk ≢ gk') ⊎ (key.name ≢ n)
    → ((remove_original delete_ns gk key types w).0 ≡ w)
      × ((remove_original delete_ns gk key types w).1.1 ≡ none)
namespace_kept delete_ns gk gk' key n types w h other = elim (not_last other) [
  | inl e ↦ unfold remove_original in ground arith
  | inr e ↦ unfold remove_original in ground arith
]
  where
    here : is_some (lookup n (entries_of (index_of gk' types) key.namespace)) ≡ true
    here =
        unfold get_original in
        ground
          (arith, get-lookup (record { namespace = key.namespace; name = n }) (index_of gk' types))

    not_last :
        (gk ≢ gk') ⊎ (key.name ≢ n)
        → (empty_elsewhere gk key.namespace types ≡ false)
          ⊎ (last_entry (entries_of (index_of gk types) key.namespace) key.name ≡ false)
    not_last (inl ne) = inl (empty_elsewhere-other gk gk' key.namespace n types here ne)
    not_last (inr ne) = elim (Bool-cases (gk == gk')) [
      | inl same ↦ inr (
          last_entry-other (entries_of (index_of gk types) key.namespace) key.name n
            (subst (λ g. is_some (lookup n (entries_of (index_of g types) key.namespace)) ≡ true)
              (sym ((==_iff gk gk').0 same)) here)
            ne)
      | inr differ ↦ inl (
          empty_elsewhere-other gk gk' key.namespace n types here
            (λ e. ground (arith, ==_iff gk gk')))
    ]
