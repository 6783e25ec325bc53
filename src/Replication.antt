-- ===== src/Replication.antt =====
-- controller/replication/mapping.go: which original a replicated object stands for, and the target
-- namespaces that are kept for the replicas. A resource mapping is known by its group kind: the
-- program makes one per kind, and its index is the one in `types`. The cluster is a parameter: `W`
-- is its state, and `get_ns`, `create_ns` and `delete_ns` are the calls on its client.
mod Tests
pub mod Index
pub mod Namespaces
pub mod Locking
use kubecrtutils.Prelude.{
  ℕ, zero, suc, ◌-◌, ltb, ◌≡◌, Bool, true, false, not, ◌&&◌, ◌||◌, List, [], ◌∷◌, Option, none,
  some, if◌then◌else◌, ◌==◌, length, is_some, nat_eq,
}
use kubecrtutils.Prelude.Text.{Text, codes, text_eq}
use kubecrtutils.Maps.{GoMap, lookup, insert, delete}
use kubecrtutils.Kube.{NamespacedName, GroupKind, kind_eq}
use kubecrtutils.Problem.{Problem, temporary_problem}

-- `mcreconcile.Request`: the cluster of the original and its key
pub record Request : Type 0 where
  pub cluster_name : Text
  pub key : NamespacedName

-- `_resourceIndex`: the entries of a namespace by name
abbrev pub ResourceIndex : Type 0
ResourceIndex = GoMap Text (GoMap Text Request)

-- `newResourceIndex`
unfoldable pub new_resource_index : ResourceIndex
new_resource_index = []

-- `i.entries[namespace]`; a missing entry is the `nil` map, which is read like an empty one
unfoldable pub entries_of : ResourceIndex → Text → GoMap Text Request
entries_of i namespace = elim (lookup namespace i) [ none ↦ [] | some obs ↦ obs ]

-- `_resourceIndex.get`
unfoldable pub get : NamespacedName → ResourceIndex → Option Request
get key i = elim (entries_of i key.namespace) [ [] ↦ none | o ∷ obs ↦ lookup key.name (o ∷ obs) ]

-- `_resourceIndex.add`
unfoldable pub add : NamespacedName → Request → ResourceIndex → ResourceIndex
add key tgt i = insert key.namespace (insert key.name tgt (entries_of i key.namespace)) i

-- the entries of a namespace, after the name is removed
unfoldable pub replace : Text → GoMap Text Request → ResourceIndex → ResourceIndex
replace namespace [] i = delete namespace i
replace namespace (o ∷ obs) i = insert namespace (o ∷ obs) i

-- `_resourceIndex.remove`
unfoldable pub remove : NamespacedName → ResourceIndex → ResourceIndex
remove key i = elim (lookup key.namespace i) [
  | none ↦ i
  | some obs ↦ replace key.namespace (delete key.name obs) i
]

-- `lastEntry`
unfoldable pub last_entry : GoMap Text Request → Text → Bool
last_entry [] key = true
last_entry ((k, r) ∷ []) key = k == key
last_entry (x ∷ (y ∷ m)) key = false

-- `_mapping.types`
abbrev pub Kinds : Type 0
Kinds = GoMap GroupKind ResourceIndex

-- the loop of `RemoveOriginal`: no other kind has an entry in the namespace
unfoldable pub empty_elsewhere : GroupKind → Text → Kinds → Bool
empty_elsewhere gk namespace [] = true
empty_elsewhere gk namespace ((k, index) ∷ types) =
    let rest = empty_elsewhere gk namespace types in
    if not (k == gk) && not (length index == 0)
    then if ltb 0 (length (entries_of index namespace)) then false else rest
    else rest

-- the index of a resource mapping, and the mappings with a changed one
unfoldable pub index_of : GroupKind → Kinds → ResourceIndex
index_of gk types = elim (lookup gk types) [ none ↦ [] | some i ↦ i ]

-- the answers of `ctx.Get` on a namespace: it is there, and maybe being deleted; it is not found;
-- another error
pub data NamespaceAnswer : Type 0 where
  ns_found : Bool → NamespaceAnswer
  ns_missing : NamespaceAnswer
  ns_error : Text → NamespaceAnswer

-- the answers of `ctx.Delete`: done, not found, another error
pub data DeleteAnswer : Type 0 where
  deleted : DeleteAnswer
  not_found : DeleteAnswer
  delete_error : Text → DeleteAnswer

module _ {W : Type 0} (get_ns : Text → W → NamespaceAnswer)
    (create_ns : Text → W → W × Option Text) where
  -- `assureNamespace`
  unfoldable pub assure_namespace : Text → W → W × Option Problem
  assure_namespace namespace w = elim (get_ns namespace w) [
    | ns_found deleting ↦ (
      w,
      temporary_problem
          (if deleting then some (codes "target namespace already deleting") else none),
    )
    | ns_missing ↦ let (w', err) = create_ns namespace w in (w', temporary_problem err)
    | ns_error e ↦ (w, temporary_problem (some e))
  ]

  -- `_resource.SetOriginal`
  unfoldable pub set_original :
      GroupKind → NamespacedName → Request → Kinds → W → W × (Kinds × Option Problem)
  set_original gk key tgt types w =
      let (w', p) = assure_namespace key.namespace w in
      (
        w',
        elim p [
          | some q ↦ (types, some q)
          | none ↦ (insert gk (add key tgt (index_of gk types)) types, none)
        ],
      )

module _ {W : Type 0} (delete_ns : Text → W → W × DeleteAnswer) where
  -- `removeNamespace`
  unfoldable pub remove_namespace : Text → W → W × Option Problem
  remove_namespace namespace w =
      let (w', r) = delete_ns namespace w in
      (
        w',
        elim r [ deleted ↦ none | not_found ↦ none | delete_error e ↦ temporary_problem (some e) ],
      )

  -- `_resource.RemoveOriginal`, without the line that it logs
  unfoldable pub remove_original :
      GroupKind → NamespacedName → Kinds → W → W × (Kinds × Option Problem)
  remove_original gk key types w =
      let is_last =
        empty_elsewhere gk key.namespace types
        && last_entry (entries_of (index_of gk types) key.namespace) key.name in
      let (w', p) = if is_last then remove_namespace key.namespace w else (w, none) in
      (
        w',
        elim p [
          | some q ↦ (types, some q)
          | none ↦ (insert gk (remove key (index_of gk types)) types, none)
        ],
      )

-- `_resource.GetOriginal`
unfoldable pub get_original : GroupKind → NamespacedName → Kinds → Option Request
get_original gk key types = get key (index_of gk types)

-- The read-write lock: how many readers hold it, and whether a writer does.
pub record Lock : Type 0 where
  pub readers : ℕ
  pub writer : Bool

-- `RLock` and `Lock`; `none` is a call that waits for a holder of the lock
unfoldable pub r_lock : Lock → Option Lock
r_lock l = if l.writer then none else some (record l { readers = suc l.readers })

unfoldable pub w_lock : Lock → Option Lock
w_lock l = if l.writer || ltb 0 l.readers then none else some (record l { writer = true })

unfoldable pub r_unlock : Lock → Lock
r_unlock l = record l { readers = l.readers - 1 }

unfoldable pub w_unlock : Lock → Lock
w_unlock l = record l { writer = false }

-- `ForResource`; one caller at a time, so the second look at the map finds what the first one did
unfoldable pub for_resource : GroupKind → Kinds → Lock → Option (Kinds × Lock)
for_resource kind types l = elim (r_lock l) [
  | none ↦ none
  | some held ↦ elim (lookup kind types) [
    | some r ↦ some (types, held)
    | none ↦ elim (w_lock (r_unlock held)) [
      | none ↦ none
      | some own ↦ some (insert kind new_resource_index types, w_unlock own)
    ]
  ]
]

-- a method that holds the lock for writing, such as `SetOriginal` and `RemoveOriginal`, or for
-- reading, such as `GetOriginal`, and gives it back
unfoldable pub locked {ℓ} : {A : Type ℓ} → A → Lock → Option (A × Lock)
locked body l = elim (w_lock l) [ none ↦ none | some own ↦ some (body, w_unlock own) ]

unfoldable pub read_locked {ℓ} : {A : Type ℓ} → A → Lock → Option (A × Lock)
read_locked body l = elim (r_lock l) [ none ↦ none | some own ↦ some (body, r_unlock own) ]

-- `NewMapping`
unfoldable pub new_mapping : Kinds × Lock
new_mapping = ([], record { readers = 0; writer = false })
