-- ===== src/Reconciler.antt =====
-- controller/controllerutils/reconciler/request.go: one reconciliation, from the lookup of the object to
-- what the runtime is told. The logic of a request, which may change its object, the comparison of
-- the two statuses and the calls of the cluster are parameters.
mod Tests
pub mod Driver
use kubecrtutils.Prelude.{
  ℕ, Bool, true, false, List, [], ◌∷◌, ◌++◌, Option, none, some, if◌then◌else◌,
}
use kubecrtutils.Prelude.Text.{Text, codes}
use kubecrtutils.Problem.{Problem, Answer, result, aggregate_problem, temporary_problem}

-- the calls of a request, in the order in which they are made
pub data Call : Type 0 where
  reconcile_deleted : Call
  reconcile_deleting : Call
  reconcile_object : Call
  update_status_of : Call
  trigger_status_changed : Call

-- `ReconcileRequest`, by its methods: the logic answers a problem and leaves the object
pub record Request (O : Type 0) : Type 0 where
  pub deleted : Option Problem
  pub deleting : O → Option Problem × O
  pub logic : O → Option Problem × O
  pub status_changed : O → O → Bool
  pub update_error : O → Option Text
  pub after : ℕ

-- what a run answers: an answer for the runtime, or the error of the lookup; and its calls
pub record Run : Type 0 where
  pub answer : Answer
  pub calls : List Call

-- `reconcile.Result{}` with an error
unfoldable pub plain_error : Text → Answer
plain_error e = record {
  requeue = false;
  requeue_after = 0;
  err = some e;
  line = [];
  argument = none;
}

-- `UpdateStatus`, from the error of the cluster
unfoldable pub update_status : (Option Text → Bool) → Option Text → Option Problem
update_status is_not_found none = none
update_status is_not_found (some e) =
    if is_not_found (some e) then none else temporary_problem (some e)

module _ {O : Type 0} (is_not_found : Option Text → Bool) (being_deleted : O → Bool)
    (r : Request O) where
  -- the part behind the logic
  unfoldable pub finish : O → Call → Option Problem × O → Run
  unfolding update_status
  finish orig call (prob, obj) =
      if r.status_changed orig obj
      then (let whole =
            aggregate_problem (prob ∷ update_status is_not_found (r.update_error obj) ∷ []) in
          elim whole [
            | none ↦ record {
              answer = result none r.after;
              calls = call ∷ update_status_of ∷ trigger_status_changed ∷ [];
            }
            | some p ↦ record {
              answer = result (some p) r.after;
              calls = call ∷ update_status_of ∷ [];
            }
          ])
      else record { answer = result prob r.after; calls = call ∷ [] }

  -- `Reconcile`, from the answer of the `Get` for the object; `general.Optional` of no time is 0
  unfoldable pub reconcile : Option Text × O → Run
  unfolding finish plain_error
  reconcile (some e, orig) =
      if is_not_found (some e)
      then record { answer = result r.deleted 0; calls = reconcile_deleted ∷ [] }
      else record { answer = plain_error e; calls = [] }
  reconcile (none, orig) =
      if being_deleted orig
      then finish orig reconcile_deleting (r.deleting orig)
      else finish orig reconcile_object (r.logic orig)
