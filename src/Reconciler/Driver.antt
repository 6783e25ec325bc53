-- ===== src/Reconciler/Driver.antt =====
-- When a reconciliation is tried again, and what it calls.
use kubecrtutils.Prelude.{
  ℕ, ◌+◌, ◌≡◌, refl, ap, sym, ◌∙◌, Bool, true, false, not, ◌&&◌, ◌||◌, List, [], ◌∷◌, Option, none,
  some, if◌then◌else◌, is_some, arith, Bool-cases, Option-cases, inl, inr,
}
use kubecrtutils.Prelude.Text.{Text}
use kubecrtutils.Problem.{Problem, result, aggregate_problem, temporary_problem}
use kubecrtutils.Problem.Retries.{is_retried, result_correct}
use kubecrtutils.Problem.Aggregate.{result-aggregate, any_requeue}
use kubecrtutils.Reconciler.{
  Request, Run, Call, reconcile_deleted, reconcile_deleting, reconcile_object, update_status_of,
  trigger_status_changed, finish, reconcile, update_status, plain_error,
}

-- a problem asks for another try
abbrev pub asks : Option Problem → Bool
asks none = false
asks (some p) = p.requeue

-- a call is made
abbrev pub count_call : (Call → Bool) → List Call → ℕ
count_call p [] = 0
count_call p (c ∷ calls) = (if p c then 1 else 0) + count_call p calls

-- the call that is made first
abbrev pub first_call : List Call → Option Call
first_call [] = none
first_call (c ∷ calls) = some c

-- one of the three methods of the logic
abbrev pub is_logic : Call → Bool
is_logic reconcile_deleted = true
is_logic reconcile_deleting = true
is_logic reconcile_object = true
is_logic update_status_of = false
is_logic trigger_status_changed = false

abbrev pub is_update : Call → Bool
is_update update_status_of = true
is_update reconcile_deleted = false
is_update reconcile_deleting = false
is_update reconcile_object = false
is_update trigger_status_changed = false

is_retried-result : (p : Option Problem) (after : ℕ) → is_retried (result p after) ≡ asks p
is_retried-result none after = unfold result in refl
is_retried-result (some p) after = (result_correct p after).0

asks-update_status :
    (is_not_found : Option Text → Bool) (e : Option Text)
    → asks (update_status is_not_found e) ≡ (is_some e && not (is_not_found e))
unfolding update_status temporary_problem
asks-update_status is_not_found none = refl
asks-update_status is_not_found (some e) = ground arith

any_requeue-two : (p q : Option Problem) → any_requeue (p ∷ q ∷ []) ≡ (asks p || asks q)
any_requeue-two none none = refl
any_requeue-two none (some q) = ground arith
any_requeue-two (some p) none = ground arith
any_requeue-two (some p) (some q) = ground arith

logic-no_update : (c : Call) → is_logic c ≡ true → is_update c ≡ false
logic-no_update reconcile_deleted h = refl
logic-no_update reconcile_deleting h = refl
logic-no_update reconcile_object h = refl
logic-no_update update_status_of h = ground (arith, h)
logic-no_update trigger_status_changed h = refl

module _ {O : Type 0} (is_not_found : Option Text → Bool) (being_deleted : O → Bool)
    (r : Request O) where
  finish-Outcome :
      (orig : O) (call : Call) (prob : Option Problem) (obj : O)
      → is_logic call ≡ true
      → (is_retried (finish is_not_found being_deleted r orig call (prob, obj)).answer ≡ (
          asks prob
          || r.status_changed orig obj
            && (is_some (r.update_error obj) && not (is_not_found (r.update_error obj)))))
        × (first_call (finish is_not_found being_deleted r orig call (prob, obj)).calls ≡ some call)
        × (count_call is_logic (finish is_not_found being_deleted r orig call (prob, obj)).calls
            ≡ 1)
        × (count_call is_update (finish is_not_found being_deleted r orig call (prob, obj)).calls
            ≡ (if r.status_changed orig obj then 1 else 0))
  unfolding finish
  finish-Outcome orig call prob obj logic = elim (Bool-cases (r.status_changed orig obj)) [
    | inr same ↦
        rw (finish, same)
          (
            ground (arith, is_retried-result prob r.after),
            refl,
            ground (arith, logic),
            ground (arith, logic-no_update call logic),
          )
    | inl changed ↦
        let upd = update_status is_not_found (r.update_error obj) in
        let again =
          result-aggregate (prob ∷ upd ∷ []) r.after
          ∙ (any_requeue-two prob upd
              ∙ ap (λ b. asks prob || b) (asks-update_status is_not_found (r.update_error obj))) in
        elim (Option-cases (aggregate_problem (prob ∷ upd ∷ []))) [
          | inl nothing ↦
              rw (finish, changed, nothing)
                (
                  ap (λ w. is_retried (result w r.after)) (sym nothing) ∙ again,
                  refl,
                  ground (arith, logic),
                  ground (arith, logic-no_update call logic),
                )
          | inr (p, some_problem) ↦
              rw (finish, changed, some_problem)
                (
                  ap (λ w. is_retried (result w r.after)) (sym some_problem) ∙ again,
                  refl,
                  ground (arith, logic),
                  ground (arith, logic-no_update call logic),
                )
        ]
  ]

  -- what a run has done, from the object behind the logic
  abbrev pub Done : Call → O → O → Option Problem → Run → Type 0
  Done call orig obj prob run =
      (is_retried run.answer ≡ (
        asks prob
        || r.status_changed orig obj
          && (is_some (r.update_error obj) && not (is_not_found (r.update_error obj)))))
      × (first_call run.calls ≡ some call)
      × (count_call is_logic run.calls ≡ 1)
      × (count_call is_update run.calls ≡ (if r.status_changed orig obj then 1 else 0))

  -- For an object that is found, the method for the deletion is called first if the object is being deleted, and else
  -- the other, and no method of the logic is called again; the status is updated once if the method
  -- has changed it, and else not at all. The runtime tries again exactly if the problem of the
  -- method asks for it or the update fails with an error other than that of a missing object. A
  -- missing object calls `ReconcileDeleted` only, and the runtime tries again exactly if that asks
  -- for it; for any other error of the lookup nothing is called and the runtime tries again.
  pub reconcile_correct :
      (orig : O)
      → Done
          (if being_deleted orig then reconcile_deleting else reconcile_object)
          orig
          (if being_deleted orig then r.deleting orig else r.logic orig).1
          (if being_deleted orig then r.deleting orig else r.logic orig).0
          (reconcile is_not_found being_deleted r (none, orig))
        × ((e : Text)
            → ((reconcile is_not_found being_deleted r (some e, orig)).calls
                ≡ (if is_not_found (some e) then reconcile_deleted ∷ [] else []))
              × (is_retried (reconcile is_not_found being_deleted r (some e, orig)).answer
                  ≡ (if is_not_found (some e) then asks r.deleted else true)))
  unfolding reconcile plain_error
  reconcile_correct orig = (
    elim (Bool-cases (being_deleted orig)) [
      | inl ending ↦
          rw (reconcile, ending)
            (finish-Outcome orig reconcile_deleting (r.deleting orig).0 (r.deleting orig).1 refl)
      | inr living ↦
          rw (reconcile, living)
            (finish-Outcome orig reconcile_object (r.logic orig).0 (r.logic orig).1 refl)
    ],
    λ e. elim (Bool-cases (is_not_found (some e))) [
      | inl missing ↦ rw (reconcile, missing) (refl, is_retried-result r.deleted 0)
      | inr failed ↦ rw (reconcile, failed) (refl, refl)
    ],
  )
