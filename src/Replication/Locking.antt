-- ===== src/Replication/Locking.antt =====
-- What `ForResource` does to the lock of the mappings.
use kubecrtutils.Prelude.{◌<◌, ◌≡◌, true, false, none, some, arith, Option-cases, is_some}
use kubecrtutils.Maps.{lookup, insert}
use kubecrtutils.Kube.{GroupKind, kind_eq}
use kubecrtutils.Replication.{
  Kinds, Lock, r_lock, w_lock, r_unlock, w_unlock, for_resource, locked, read_locked,
  new_resource_index,
}

-- what the callers of the mappings do, one call after another, from some mappings and lock on
pub data Reaches : Kinds × Lock → Kinds × Lock → Type 0 where
  start : (s : Kinds × Lock) → Reaches s s
  then_resource :
      (s t u : Kinds × Lock) (kind : GroupKind)
      → Reaches s t
      → for_resource kind t.0 t.1 ≡ some u
      → Reaches s u
  then_read :
      (s t : Kinds × Lock) (l : Lock)
      → Reaches s t
      → read_locked t.0 t.1 ≡ some (t.0, l)
      → Reaches s (t.0, l)
  then_write :
      (s t : Kinds × Lock) (types : Kinds) (l : Lock)
      → Reaches s t
      → locked types t.1 ≡ some (types, l)
      → Reaches s (types, l)

for_resource_readers :
    (kind : GroupKind) (types : Kinds) (l : Lock) (u : Kinds × Lock)
    → 0 < l.readers
    → for_resource kind types l ≡ some u
    → 0 < u.1.readers
unfolding for_resource r_lock w_lock r_unlock w_unlock
for_resource_readers kind types l u h e = ground (arith, Option-cases (lookup kind types))

read_readers :
    (types : Kinds) (l l' : Lock)
    → 0 < l.readers
    → read_locked types l ≡ some (types, l')
    → 0 < l'.readers
unfolding read_locked r_lock r_unlock
read_readers types l l' h e = ground arith

write_blocked : {A : Type 0} (body : A) (l : Lock) → 0 < l.readers → locked body l ≡ none
unfolding locked w_lock
write_blocked body l h = ground arith

still_held : (s t : Kinds × Lock) → Reaches s t → 0 < s.1.readers → 0 < t.1.readers
still_held s _ (start _) h = h
still_held s _ (then_resource _ t u kind r e) h =
    for_resource_readers kind t.0 t.1 u (still_held s t r h) e
still_held s _ (then_read _ t l r e) h = read_readers t.0 t.1 l (still_held s t r h) e
still_held s _ (then_write _ t types l r e) h =
    let blocked = write_blocked types t.1 (still_held s t r h) in absurd (ground arith)

abbrev pub free : Lock
free = record { readers = 0; writer = false }

abbrev read_once : Lock
read_once = record { readers = 1; writer = false }

for_resource-new :
    (kind : GroupKind) (types : Kinds)
    → lookup kind types ≡ none
    → for_resource kind types free ≡ some (insert kind new_resource_index types, free)
unfolding for_resource r_lock w_lock r_unlock w_unlock
for_resource-new kind types e = ground arith

for_resource-known :
    (kind : GroupKind) (types : Kinds)
    → is_some (lookup kind types) ≡ true
    → for_resource kind types free ≡ some (types, read_once)
unfolding for_resource r_lock
for_resource-known kind types e = ground arith

-- `ForResource` of a kind that has no mapping yet makes one, and leaves a free lock free. Of a kind
-- that has one, it keeps the lock: from then on, whatever calls follow, every method that locks for
-- writing, such as `SetOriginal` and `RemoveOriginal`, waits for ever.
pub for_resource_locks :
    {A : Type 0} (body : A) (kind : GroupKind) (types : Kinds)
    → (lookup kind types ≡ none
        → for_resource kind types free ≡ some (insert kind new_resource_index types, free))
      × (is_some (lookup kind types) ≡ true
          → (l : Lock) × (for_resource kind types free ≡ some (types, l))
            × ((t : Kinds × Lock) → Reaches (types, l) t → locked body t.1 ≡ none))
for_resource_locks body kind types = (
  for_resource-new kind types,
  λ known. (
    read_once,
    for_resource-known kind types known,
    λ t r. write_blocked body t.1 (still_held (types, read_once) t r (omega arith)),
  ),
)
