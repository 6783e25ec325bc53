-- ===== src/Applying/Tests.antt =====
-- Tests of the writes to a cluster, and the instances of their theorems.
use kubecrtutils.Prelude.{◌≡◌, refl, Bool, false, [], ◌∷◌, Option, none, some, is_some, ◌⊎◌}
use kubecrtutils.Prelude.Text.{Text, codes}
use kubecrtutils.Applying.{
  Unstructured, patches, ModificationInfo, set_updated, Answer, gives, client_side_apply,
  client_side_apply_object,
}
use kubecrtutils.Applying.Writes.{
  IsRecorded, client_side_apply-IsRecorded, client_side_apply_object_updates,
}

-- the rest of an object is a text; there is one object, which is always found
abbrev thing : Unstructured Text
thing = record { meta = record { annotations = none; labels = none }; body = codes "x" }

abbrev missing : Option Text → Bool
missing e = is_some e

abbrev get_thing : Unstructured Text → Option Text × Unstructured Text
get_thing o = (none, thing)

abbrev unchanged : Unstructured Text → Option Text × Unstructured Text
unchanged o = (none, o)

abbrev succeeds : Unstructured Text → Option Text
succeeds o = none

abbrev patched : Unstructured Text → Text → Option Text
patched o d = none

abbrev spec_patch : Unstructured Text → Unstructured Text → Answer Text
spec_patch current desired = gives (codes "{\"spec\":1}")

abbrev patch_data : Unstructured Text → Unstructured Text → Answer (Text × Unstructured Text)
patch_data desired current = gives (codes "{\"spec\":1}", current)

abbrev no_flags : Option ModificationInfo
no_flags = some (record { created = false; updated = false })

client_side_apply-IsRecorded_example :
    IsRecorded missing get_thing unchanged succeeds patched spec_patch no_flags
      (client_side_apply missing get_thing unchanged succeeds patched spec_patch
        (gives thing)
        no_flags)
      (gives thing)
client_side_apply-IsRecorded_example =
    client_side_apply-IsRecorded missing get_thing unchanged succeeds patched spec_patch
      (gives thing) no_flags

client_side_apply_object_updates_example :
    let r =
      client_side_apply_object missing get_thing unchanged succeeds patched spec_patch patch_data
        (gives thing)
        (gives thing)
        no_flags in
    ((r.writes ≡ []) × (r.info ≡ no_flags))
    ⊎ ((o : Unstructured Text) × (d : Text) × (r.writes ≡ patches o d ∷ [])
        × (r.info ≡ set_updated no_flags)
        × (r.error ≡ none))
client_side_apply_object_updates_example =
    client_side_apply_object_updates missing get_thing unchanged succeeds patched spec_patch
      patch_data (gives thing) (gives thing) no_flags refl
