-- ===== src/Replication/Index.antt =====
-- What the mappings hold after an original is set or removed.
use kubecrtutils.Prelude.{
  ◌≡◌, ◌≢◌, true, ◌&&◌, [], ◌∷◌, Option, none, some, if◌then◌else◌, ◌==◌, ==_iff, arith,
  Option-cases, inl, inr, ap, ◌∙◌,
}
use kubecrtutils.Prelude.Text.{Text, text_eq}
use kubecrtutils.Maps.{GoMap, lookup, insert, delete, lookup-insert, lookup-delete}
use kubecrtutils.Kube.{NamespacedName, GroupKind, kind_eq, key_eq}
use kubecrtutils.Problem.{Problem}
use kubecrtutils.Replication.{
  Request, ResourceIndex, Kinds, NamespaceAnswer, DeleteAnswer, entries_of, get, add, replace,
  remove, index_of, set_original, remove_original, get_original, assure_namespace, remove_namespace,
  empty_elsewhere, last_entry,
}

-- `get` without its test of the length
pub get-lookup :
    (key : NamespacedName) (i : ResourceIndex)
    → get key i ≡ lookup key.name (entries_of i key.namespace)
unfolding get lookup
get-lookup key i = ground arith

entries_of-add :
    (k : NamespacedName) (t : Request) (i : ResourceIndex) (ns : Text)
    → entries_of (add k t i) ns
      ≡ (if k.namespace == ns then insert k.name t (entries_of i k.namespace) else entries_of i ns)
unfolding entries_of add
entries_of-add k t i ns =
    ground (arith, lookup-insert ns k.namespace (insert k.name t (entries_of i k.namespace)) i)

pub get-add :
    (k j : NamespacedName) (t : Request) (i : ResourceIndex)
    → get j (add k t i) ≡ (if k == j then some t else get j i)
get-add k j t i = ground (
  arith,
  get-lookup j (add k t i),
  get-lookup j i,
  entries_of-add k t i j.namespace,
  lookup-insert j.name k.name t (entries_of i k.namespace),
  ==_iff k.namespace j.namespace,
)

entries_of-replace :
    (namespace : Text) (obs : GoMap Text Request) (i : ResourceIndex) (ns : Text)
    → entries_of (replace namespace obs i) ns ≡ (if namespace == ns then obs else entries_of i ns)
unfolding entries_of replace
entries_of-replace namespace [] i ns = ground (arith, lookup-delete ns namespace i)
entries_of-replace namespace (o ∷ obs) i ns = ground (arith, lookup-insert ns namespace (o ∷ obs) i)

remove-absent :
    (k : NamespacedName) (i : ResourceIndex) → lookup k.namespace i ≡ none → remove k i ≡ i
unfolding remove
remove-absent k i e = ground arith

remove-present :
    (k : NamespacedName) (i : ResourceIndex) (obs : GoMap Text Request)
    → lookup k.namespace i ≡ some obs
    → remove k i ≡ replace k.namespace (delete k.name obs) i
unfolding remove
remove-present k i obs e = ground arith

entries_of-remove :
    (k : NamespacedName) (i : ResourceIndex) (ns : Text)
    → entries_of (remove k i) ns
      ≡ (if k.namespace == ns then delete k.name (entries_of i k.namespace) else entries_of i ns)
entries_of-remove k i ns = elim (Option-cases (lookup k.namespace i)) [
  | inl e ↦
      rw (remove-absent k i e)
        (unfold entries_of delete in ground (arith, ==_iff k.namespace ns, ap (λ x. lookup x i)))
  | inr (obs, e) ↦
      let here : entries_of i k.namespace ≡ obs = unfold entries_of in ground arith in
      rw (remove-present k i obs e, here) (entries_of-replace k.namespace (delete k.name obs) i ns)
]

pub get-remove :
    (k j : NamespacedName) (i : ResourceIndex)
    → get j (remove k i) ≡ (if k == j then none else get j i)
get-remove k j i = ground (
  arith,
  get-lookup j (remove k i),
  get-lookup j i,
  entries_of-remove k i j.namespace,
  lookup-delete j.name k.name (entries_of i k.namespace),
  ==_iff k.namespace j.namespace,
)

-- no namespace is kept without an entry
abbrev pub IsTidy : ResourceIndex → Type 0
IsTidy i = (ns : Text) → lookup ns i ≢ some []

insert-ne-nil : (k : Text) (t : Request) (m : GoMap Text Request) → insert k t m ≢ []
unfolding insert
insert-ne-nil k t [] h = cc h
insert-ne-nil k t ((j, u) ∷ m) h = ground arith

add-IsTidy : (k : NamespacedName) (t : Request) (i : ResourceIndex) → IsTidy i → IsTidy (add k t i)
unfolding add
add-IsTidy k t i h ns e = ground (
  arith,
  lookup-insert ns k.namespace (insert k.name t (entries_of i k.namespace)) i,
  insert-ne-nil k.name t (entries_of i k.namespace),
  h ns,
)

replace-IsTidy :
    (namespace : Text) (obs : GoMap Text Request) (i : ResourceIndex)
    → IsTidy i
    → IsTidy (replace namespace obs i)
unfolding replace
replace-IsTidy namespace [] i h ns e = ground (arith, lookup-delete ns namespace i, h ns)
replace-IsTidy namespace (o ∷ obs) i h ns e =
    ground (arith, lookup-insert ns namespace (o ∷ obs) i, h ns)

remove-IsTidy : (k : NamespacedName) (i : ResourceIndex) → IsTidy i → IsTidy (remove k i)
remove-IsTidy k i h = elim (Option-cases (lookup k.namespace i)) [
  | inl e ↦ rw (remove-absent k i e) h
  | inr (obs, e) ↦
      rw (remove-present k i obs e) (replace-IsTidy k.namespace (delete k.name obs) i h)
]

-- `add` and `remove` never leave a namespace in the index without an entry.
pub index_stays-IsTidy :
    (k : NamespacedName) (t : Request) (i : ResourceIndex)
    → IsTidy i
    → IsTidy (add k t i) × IsTidy (remove k i)
index_stays-IsTidy k t i h = (add-IsTidy k t i h, remove-IsTidy k i h)

get_original-insert :
    (gk gk' : GroupKind) (i : ResourceIndex) (j : NamespacedName) (types : Kinds)
    → get_original gk' j (insert gk i types)
      ≡ (if gk == gk' then get j i else get_original gk' j types)
unfolding get_original index_of
get_original-insert gk gk' i j types = ground (arith, lookup-insert gk' gk i types)

get_original-here :
    (gk gk' : GroupKind) (j : NamespacedName) (types : Kinds)
    → (gk == gk') ≡ true
    → get j (index_of gk types) ≡ get_original gk' j types
unfolding get_original
get_original-here gk gk' j types h = ap (λ g. get j (index_of g types)) ((==_iff gk gk').0 h)

-- `SetOriginal` without a problem sets the original of its kind and key, and of no other; with a
-- problem it changes no mapping.
pub set_original_correct :
    {W : Type 0} (get_ns : Text → W → NamespaceAnswer) (create_ns : Text → W → W × Option Text)
    (gk gk' : GroupKind) (key j : NamespacedName) (tgt : Request) (types : Kinds) (w : W)
    → ((set_original get_ns create_ns gk key tgt types w).1.1 ≡ none
        → get_original gk' j (set_original get_ns create_ns gk key tgt types w).1.0
          ≡ (if (gk == gk') && (key == j) then some tgt else get_original gk' j types))
      × ((p : Problem)
          → (set_original get_ns create_ns gk key tgt types w).1.1 ≡ some p
          → (set_original get_ns create_ns gk key tgt types w).1.0 ≡ types)
unfolding set_original
set_original_correct get_ns create_ns gk gk' key j tgt types w =
    elim (Option-cases (assure_namespace get_ns create_ns key.namespace w).1) [
      | inl e ↦ (
        λ no.
            rw (e, set_original)
              (get_original-insert gk gk' (add key tgt (index_of gk types)) j types
                ∙ ground (
                  arith,
                  get-add key j tgt (index_of gk types),
                  get_original-here gk gk' j types,
                )),
        λ p h. absurd (ground arith),
      )
      | inr (p, e) ↦ (λ no. absurd (ground arith), λ q h. ground arith)
    ]

-- the cluster and the problem after the namespace was removed, or kept
abbrev cleaned :
    {W : Type 0}
    → (Text → W → W × DeleteAnswer)
    → GroupKind
    → NamespacedName
    → Kinds
    → W
    → W × Option Problem
cleaned delete_ns gk key types w =
    if empty_elsewhere gk key.namespace types
      && last_entry (entries_of (index_of gk types) key.namespace) key.name
    then remove_namespace delete_ns key.namespace w
    else (w, none)

-- `RemoveOriginal` without a problem removes the original of its kind and key, and no other; with a
-- problem it changes no mapping.
pub remove_original_correct :
    {W : Type 0} (delete_ns : Text → W → W × DeleteAnswer) (gk gk' : GroupKind)
    (key j : NamespacedName) (types : Kinds) (w : W)
    → ((remove_original delete_ns gk key types w).1.1 ≡ none
        → get_original gk' j (remove_original delete_ns gk key types w).1.0
          ≡ (if (gk == gk') && (key == j) then none else get_original gk' j types))
      × ((p : Problem)
          → (remove_original delete_ns gk key types w).1.1 ≡ some p
          → (remove_original delete_ns gk key types w).1.0 ≡ types)
unfolding remove_original get_original
remove_original_correct delete_ns gk gk' key j types w =
    elim (Option-cases (cleaned delete_ns gk key types w).1) [
      | inl e ↦ (
        λ no.
            rw (e, remove_original)
              (get_original-insert gk gk' (remove key (index_of gk types)) j types
                ∙ ground (
                  arith,
                  get-remove key j (index_of gk types),
                  get_original-here gk gk' j types,
                )),
        λ p h. absurd (ground arith),
      )
      | inr (p, e) ↦ (λ no. absurd (ground arith), λ q h. ground arith)
    ]
