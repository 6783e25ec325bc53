-- ===== src/Reconciler/Tests.antt =====
-- Tests of a reconciliation, and the instances of their theorems.
use kubecrtutils.Prelude.{
  ℕ, ◌≡◌, Bool, true, false, not, [], ◌∷◌, Option, none, some, if◌then◌else◌, nat_beq,
}
use kubecrtutils.Prelude.Text.{Text, codes}
use kubecrtutils.Problem.Retries.{is_retried}
use kubecrtutils.Reconciler.{Request, reconcile_deleted, reconcile_object, reconcile}
use kubecrtutils.Reconciler.Driver.{reconcile_correct, asks, Done}

-- the object is a number, which the logic raises; its update fails
abbrev counting : Request ℕ
counting = record {
  deleted = none;
  deleting = λ o. (none, o);
  logic = λ o. (none, 3);
  status_changed = λ a b. not (nat_beq a b);
  update_error = λ o. some (codes "conflict");
  after = 10;
}

abbrev never : Option Text → Bool
never e = false

abbrev alive : ℕ → Bool
alive o = false

reconcile_correct_example :
    Done never alive counting reconcile_object 2 3 none (reconcile never alive counting (none, 2))
    × ((e : Text)
        → ((reconcile never alive counting (some e, 2)).calls
            ≡ (if never (some e) then reconcile_deleted ∷ [] else []))
          × (is_retried (reconcile never alive counting (some e, 2)).answer
              ≡ (if never (some e) then asks counting.deleted else true)))
reconcile_correct_example = reconcile_correct never alive counting 2
