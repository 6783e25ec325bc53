-- ===== src/Enqueue/Reached.antt =====
-- Every registered queue gets each event of its kind once.
use kubecrtutils.Prelude.{
  ℕ, ◌+◌, ◌≡◌, ◌≢◌, refl, ap, ◌∙◌, subst, Bool, false, not, ◌&&◌, is_some, List, [], ◌∷◌, ◌++◌,
  Option, none, some, if◌then◌else◌, ◌==◌, elem, elem-append, nat_eq, Eq, arith, ==_iff, Bool-cases,
  Option-cases, inl, inr,
}
use kubecrtutils.Prelude.Text.{Text}
use kubecrtutils.Maps.{lookup, insert, lookup-insert}
use kubecrtutils.Enqueue.{
  Queues, Enqueues, start, add_to_queue, trigger_source, start_source, enqueue_by_gvk,
  enqueue_by_object,
}

-- how often a queue is registered, and how often a request is added to it
unfoldable pub times : ℕ → Queues → ℕ
times w [] = 0
times w (q ∷ queues) = (if q == w then 1 else 0) + times w queues

unfoldable pub adds : {T : Type 0} → ℕ → List (ℕ × T) → ℕ
adds w [] = 0
adds w ((q, req) ∷ added) = (if q == w then 1 else 0) + adds w added

-- a queue is among those that are found for a kind
abbrev pub is_registered : ℕ → Option Queues → Bool
is_registered w none = false
is_registered w (some queues) = elem w queues

-- the kind of an object, which it names or the scheme has
abbrev pub kind_of : {K : Type 0} → Option K → Option Text × K → Option Text × K
kind_of none scheme_kind = scheme_kind
kind_of (some gvk) scheme_kind = (none, gvk)

-- the first of two errors
abbrev pub first_of : Option Text → Option Text → Option Text
first_of none e = e
first_of (some t) e = some t

-- no queue is registered twice
unfoldable pub IsOnce : Queues → Type 0
IsOnce queues = (w : ℕ) → times w queues ≡ (if elem w queues then 1 else 0)

times-append : (w : ℕ) (p q : Queues) → times w (p ++ q) ≡ times w p + times w q
unfolding times
times-append w [] q = ground arith
times-append w (x ∷ p) q = ground (arith, times-append w p q)

pub start-IsOnce : (v : ℕ) (queues : Queues) → IsOnce queues → IsOnce (start v queues)
unfolding IsOnce start times
start-IsOnce v queues once w = elim (Bool-cases (elem v queues)) [
  | inl known ↦ rw (start, known) (once w)
  | inr new ↦
      rw (start, new, times-append w queues (v ∷ []), elem-append w queues (v ∷ []))
        (ground (arith, once w, new, ==_iff v w, ap (λ x. elem x queues)))
]

adds-add_to_queue :
    {T : Type 0} (w : ℕ) (req : T) (queues : Queues)
    → adds w (add_to_queue req queues) ≡ times w queues
unfolding adds add_to_queue times
adds-add_to_queue w req [] = refl
adds-add_to_queue w req (q ∷ queues) = ground (arith, adds-add_to_queue w req queues)

none_found : {K : Type 0} ⦃e : Eq K⦄ (k : K) (q : Queues) → lookup k [] ≢ some q
unfolding lookup
none_found k q found = cc found

module _ {K T Key : Type 0} ⦃e : Eq K⦄ (creator : Key → Option Text × T) where
  -- the states that the steps of any number of controllers lead to
  pub data Reached : Enqueues K → Type 0 where
    begin : Reached []
    triggered : (gvk : K) (m : Enqueues K) → Reached m → Reached (trigger_source creator gvk m)
    started :
        (gvk : K) (w : ℕ) (m : Enqueues K) → Reached m → Reached (start_source creator gvk w m)

  AllOnce : Enqueues K → Type 0
  AllOnce m = (gvk : K) (q : Queues) → lookup gvk m ≡ some q → IsOnce q

  insert-AllOnce :
      (gvk : K) (q : Queues) (m : Enqueues K) → IsOnce q → AllOnce m → AllOnce (insert gvk q m)
  unfolding AllOnce
  insert-AllOnce gvk q m once all k r found = elim (Bool-cases (gvk == k)) [
    | inl same ↦
        let this : q ≡ r = ground (arith, lookup-insert k gvk q m, same, found) in
        subst IsOnce this once
    | inr other ↦ all k r (ground (arith, lookup-insert k gvk q m, other, found))
  ]

  Reached-AllOnce : (m : Enqueues K) → Reached m → AllOnce m
  unfolding AllOnce trigger_source start_source
  Reached-AllOnce _ begin = λ k q found. absurd (none_found k q found)
  Reached-AllOnce _ (triggered gvk m r) = elim (Option-cases (lookup gvk m)) [
    | inl nothing ↦
        rw (trigger_source, nothing)
          (insert-AllOnce gvk [] m (unfold IsOnce in unfold times in λ w. refl)
            (Reached-AllOnce m r))
    | inr (q, known) ↦ rw (trigger_source, known) (Reached-AllOnce m r)
  ]
  Reached-AllOnce _ (started gvk w m r) = elim (Option-cases (lookup gvk m)) [
    | inl nothing ↦ rw (start_source, nothing) (Reached-AllOnce m r)
    | inr (q, known) ↦
        rw (start_source, known)
          (insert-AllOnce gvk (start w q) m (start-IsOnce w q (Reached-AllOnce m r gvk q known))
            (Reached-AllOnce m r))
  ]

  -- Whatever controllers have registered before, in any order and as often as they like, an event of a kind is added
  -- once to each queue that is registered for the kind, and to no other queue. (The request for the
  -- event can be made.)
  pub enqueue_once :
      (m : Enqueues K) (gvk : K) (key : Key) (req : T) (q : Queues) (w : ℕ)
      → Reached m
      → lookup gvk m ≡ some q
      → creator key ≡ (none, req)
      → ((enqueue_by_gvk creator gvk key m).0 ≡ none)
        × (adds w (enqueue_by_gvk creator gvk key m).1 ≡ (if elem w q then 1 else 0))
  unfolding enqueue_by_gvk AllOnce IsOnce
  enqueue_once m gvk key req q w r found made = (
    rw (enqueue_by_gvk, found, made) refl,
    rw (enqueue_by_gvk, found, made)
        (adds-add_to_queue w (creator key).1 q ∙ Reached-AllOnce m r gvk q found w),
  )

  enqueue_by_gvk-adds :
      (m : Enqueues K) (gvk : K) (key : Key) (w : ℕ)
      → Reached m
      → adds w (enqueue_by_gvk creator gvk key m).1
        ≡ (if is_registered w (lookup gvk m) && not (is_some (creator key).0) then 1 else 0)
  unfolding enqueue_by_gvk AllOnce IsOnce adds
  enqueue_by_gvk-adds m gvk key w r = elim (Option-cases (lookup gvk m)) [
    | inl nothing ↦ rw (enqueue_by_gvk, nothing) refl
    | inr (q, found) ↦ elim (Option-cases (creator key).0) [
      | inl made ↦
          rw (enqueue_by_gvk, found, made)
            (adds-add_to_queue w (creator key).1 q
              ∙ (Reached-AllOnce m r gvk q found w ∙ ground arith))
      | inr (t, failed) ↦ rw (enqueue_by_gvk, found, failed) (ground arith)
    ]
  ]

  -- `EnqueueByObject` fails exactly if the kind of the object is not found or else its key is not; otherwise it adds
  -- the event once to each queue that is registered for the kind, whatever controllers have
  -- registered before, if the request can be made, and to no queue if not, without an error.
  pub enqueue_by_object_correct :
      (m : Enqueues K) (named : Option K) (scheme_kind : Option Text × K)
      (key_of : Option Text × Key) (w : ℕ)
      → Reached m
      → ((enqueue_by_object creator named scheme_kind key_of m).0
          ≡ first_of (kind_of named scheme_kind).0 key_of.0)
        × (adds w (enqueue_by_object creator named scheme_kind key_of m).1 ≡ (
            if not (is_some (first_of (kind_of named scheme_kind).0 key_of.0))
              && (is_registered w (lookup (kind_of named scheme_kind).1 m)
                  && not (is_some (creator key_of.1).0))
            then 1
            else 0))
  unfolding enqueue_by_object adds
  enqueue_by_object_correct m (some gvk) scheme_kind (some t, key) w r = (refl, refl)
  enqueue_by_object_correct m (some gvk) scheme_kind (none, key) w r =
      (refl, enqueue_by_gvk-adds m gvk key w r)
  enqueue_by_object_correct m none (some t, gvk) key_of w r = (refl, refl)
  enqueue_by_object_correct m none (none, gvk) (some t, key) w r = (refl, refl)
  enqueue_by_object_correct m none (none, gvk) (none, key) w r =
      (refl, enqueue_by_gvk-adds m gvk key w r)
