-- ===== src/Enqueue.antt =====
-- enqueue/typed_enqueue.go and enqueue/typed_mux.go: events that are passed to all the queues of the
-- controllers that watch a source. Both types hold their lock for a whole operation each, so that an
-- operation is one step. A queue is known by a number, and a kind and a request are any values.
mod Tests
pub mod Reached
use kubecrtutils.Prelude.{
  ℕ, Bool, true, false, List, [], ◌∷◌, ◌++◌, Option, none, some, if◌then◌else◌, ◌==◌, elem, nat_eq,
  Eq,
}
use kubecrtutils.Prelude.Text.{Text, codes}
use kubecrtutils.Maps.{GoMap, lookup, insert}

-- `typedenqueue`: the queues that are registered
abbrev pub Queues : Type 0
Queues = List ℕ

-- `Start`
unfoldable pub start : ℕ → Queues → Queues
start w queues = if elem w queues then queues else queues ++ w ∷ []

-- `AddToQueue`: the queues that the request is added to, in their order
unfoldable pub add_to_queue : {T : Type 0} → T → Queues → List (ℕ × T)
add_to_queue req [] = []
add_to_queue req (q ∷ queues) = (q, req) ∷ add_to_queue req queues

-- `typedmux`, where an entry of the map is the state of the source that it points to
abbrev pub Enqueues : Type 0 → Type 0
Enqueues K = GoMap K Queues

module _ {K T Key : Type 0} ⦃e : Eq K⦄ (creator : Key → Option Text × T) where
  -- `TriggerSource` of a kind; the source that it returns is the entry of the kind
  unfoldable pub trigger_source : K → Enqueues K → Enqueues K
  trigger_source gvk m = elim (lookup gvk m) [ none ↦ insert gvk [] m | some q ↦ m ]

  -- `Start` of the source of a kind
  unfoldable pub start_source : K → ℕ → Enqueues K → Enqueues K
  unfolding start
  start_source gvk w m = elim (lookup gvk m) [ none ↦ m | some q ↦ insert gvk (start w q) m ]

  -- `EnqueueByGVK`, with what is added to the queues
  unfoldable pub enqueue_by_gvk : K → Key → Enqueues K → Option Text × List (ℕ × T)
  unfolding add_to_queue
  enqueue_by_gvk gvk key m = elim (lookup gvk m) [
    | none ↦ (none, [])
    | some q ↦
        let (err, req) = creator key in
        elim err [ some t ↦ (some t, []) | none ↦ (none, add_to_queue req q) ]
  ]

  -- `EnqueueByObject`, from the kind that the object names, if it names one, the kind that
  -- the scheme has for it, and its key
  unfoldable pub enqueue_by_object :
      Option K → Option Text × K → Option Text × Key → Enqueues K → Option Text × List (ℕ × T)
  unfolding enqueue_by_gvk
  enqueue_by_object (some gvk) scheme_kind (some t, key) m = (some t, [])
  enqueue_by_object (some gvk) scheme_kind (none, key) m = (none, (enqueue_by_gvk gvk key m).1)
  enqueue_by_object none (some t, gvk) key_of m = (some t, [])
  enqueue_by_object none (none, gvk) (some t, key) m = (some t, [])
  enqueue_by_object none (none, gvk) (none, key) m = (none, (enqueue_by_gvk gvk key m).1)
