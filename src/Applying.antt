-- ===== src/Applying.antt =====
-- cluster/utils.go: objects that are written to a cluster. A run is a function of what the cluster, the
-- decoder and the mergers answer; it tells the writes that it makes, in their order. The message of
-- a wrapped error is put in front of its text.
mod Tests
pub mod Writes
use kubecrtutils.Prelude.{
  ℕ, zero, suc, Bool, true, false, not, ◌&&◌, ◌||◌, List, [], ◌∷◌, ◌++◌, Option, none, some,
  if◌then◌else◌, ◌==◌, is_some,
}
use kubecrtutils.Prelude.Text.{Text, codes, text_eq}
use kubecrtutils.Maps.{GoMap}
use kubecrtutils.Objects.{Object, Values, set_annotation, set_label}

-- `unstructured.Unstructured`: its annotations and labels, and the rest
pub record Unstructured (B : Type 0) : Type 0 where
  pub meta : Object
  pub body : B

-- a write to the cluster
pub data Write (B : Type 0) : Type 0 where
  creates : Unstructured B → Write B
  patches : Unstructured B → Text → Write B
  deletes : Unstructured B → Write B
  applies : Unstructured B → Text → Write B

-- `ModificationInfo`; a missing one is `nil`
pub record ModificationInfo : Type 0 where
  pub created : Bool
  pub updated : Bool

-- `Clear`, `SetCreated` and `SetUpdated`
unfoldable pub clear : ModificationInfo → ModificationInfo
clear m = record { created = false; updated = false }

unfoldable pub set_created : Option ModificationInfo → Option ModificationInfo
set_created none = none
set_created (some m) = some (record m { created = true })

unfoldable pub set_updated : Option ModificationInfo → Option ModificationInfo
set_updated none = none
set_updated (some m) = some (record m { updated = true })

-- what `Report` says of an object
unfoldable pub report : ModificationInfo → Text → Option Text
report m typ =
    if m.updated
    then some (typ ++ codes "Updated")
    else if m.created
    then some (typ ++ codes "Created")
    else none

-- what a call answers that fails or gives a value
pub data Answer (A : Type 0) : Type 0 where
  fails : Text → Answer A
  gives : A → Answer A

-- a modifier changes an object, and may fail
abbrev pub Modifier : Type 0 → Type 0
Modifier B = Unstructured B → Option Text × Unstructured B

-- the loop of `aggregatedModifier`; one modifier is taken as it is
unfoldable pub modify_all : {B : Type 0} → List (Modifier B) → Modifier B
modify_all [] obj = (none, obj)
modify_all (m ∷ mods) obj =
    let (err, obj') = m obj in elim err [ some e ↦ (some e, obj') | none ↦ modify_all mods obj' ]

unfoldable pub aggregated_modifier : {B : Type 0} → List (Modifier B) → Modifier B
unfolding modify_all
aggregated_modifier [] = modify_all []
aggregated_modifier (m ∷ []) = m
aggregated_modifier (m ∷ n ∷ mods) = modify_all (m ∷ n ∷ mods)

-- `modificationWrapper.Modify`
unfoldable pub with_modification : {B : Type 0} → Modifier B → List (Modifier B) → Modifier B
unfolding aggregated_modifier
with_modification inner mods obj =
    let (err, obj') = inner obj in
    elim err [ some e ↦ (some e, obj') | none ↦ aggregated_modifier mods obj' ]

-- `strings.HasSuffix`
unfoldable pub has_suffix : Text → Text → Bool
has_suffix suffix [] = suffix == []
has_suffix suffix (c ∷ s) = let rest = has_suffix suffix s in if suffix == c ∷ s then true else rest

abbrev pub kcp_suffix : Text
kcp_suffix = codes ".kcp.io"

-- the two loops over the annotations and labels of the current object, over what the getters return
unfoldable pub keep_annotations : GoMap Text Text → Object → Object
keep_annotations [] obj = obj
keep_annotations ((n, v) ∷ m) obj =
    keep_annotations m (if has_suffix kcp_suffix v then set_annotation n v obj else obj)

unfoldable pub keep_labels : GoMap Text Text → Object → Object
keep_labels [] obj = obj
keep_labels ((n, v) ∷ m) obj =
    keep_labels m (if has_suffix kcp_suffix v then set_label n v obj else obj)

unfoldable pub entries : Values → GoMap Text Text
entries none = []
entries (some m) = m

unfoldable pub keep_kcp : {B : Type 0} → Unstructured B → Unstructured B
unfolding keep_annotations keep_labels entries
keep_kcp current =
    let annotated = keep_annotations (entries current.meta.annotations) current.meta in
    record current { meta = keep_labels (entries annotated.labels) annotated }

-- what a run leaves: the object and the error that it returns, its writes, and the flags
pub record Run (B : Type 0) : Type 0 where
  pub object : Option (Unstructured B)
  pub error : Option Text
  pub writes : List (Write B)
  pub info : Option ModificationInfo

-- `ServerSideApply`
unfoldable pub server_side_apply :
    {B : Type 0}
    → Modifier B
    → (Unstructured B → Text → Option Text)
    → Text
    → Answer (Unstructured B)
    → Option Text × List (Write B)
server_side_apply modify patch manager (fails e) =
    (some (codes "failed to decode manifest: " ++ e), [])
server_side_apply modify patch manager (gives obj) =
    let (err, obj') = modify obj in
    elim err [
      | some e ↦ (some (codes "failed to modify manifest: " ++ e), [])
      | none ↦ elim (patch obj' manager) [
        | some e ↦ (some (codes "failed to apply manifest: " ++ e), applies obj' manager ∷ [])
        | none ↦ (none, applies obj' manager ∷ [])
      ]
    ]

-- `get` is the `Get` of the cluster for the key of an object: its error, and the current object.
-- `deleting` tells whether that is being deleted, `is_not_found` is `errors.IsNotFound`.
module _ {B : Type 0} (is_not_found : Option Text → Bool)
    (get : Unstructured B → Option Text × Unstructured B) where
  -- `DeleteObject`
  unfoldable pub delete_object :
      (Unstructured B → Bool)
      → (Unstructured B → Option Text)
      → Text
      → Answer (Unstructured B)
      → Option Text × List (Write B)
  delete_object deleting delete message (fails e) = (some e, [])
  delete_object deleting delete message (gives obj) =
      let (err, current) = get obj in
      elim err [
        | some e ↦ if is_not_found (some e) then (none, []) else (some e, [])
        | none ↦ if deleting current then (some message, []) else (delete obj, deletes obj ∷ [])
      ]

  -- `create` and `patch` are the writes of the cluster, `compute` the patch for the current and
  -- the desired object, with the error of the merger in it
  module _ (modify : Modifier B) (create : Unstructured B → Option Text)
      (patch : Unstructured B → Text → Option Text)
      (compute : Unstructured B → Unstructured B → Answer Text) where
    -- the part of `ClientSideApply` behind the patch
    unfoldable pub write_patch :
        Unstructured B → Unstructured B → Text → Option ModificationInfo → Run B
    write_patch desired current data_ info =
        if data_ == codes "{}" || data_ == []
        then record { object = some desired; error = none; writes = []; info = info }
        else record {
          object = some desired;
          error = patch current data_;
          writes = patches current data_ ∷ [];
          info = set_updated info;
        }

    -- `ClientSideApply`
    unfoldable pub client_side_apply : Answer (Unstructured B) → Option ModificationInfo → Run B
    unfolding write_patch keep_kcp
    client_side_apply (fails e) info = record {
      object = none;
      error = some e;
      writes = [];
      info = info;
    }
    client_side_apply (gives manifest) info =
        let (err, desired) = modify manifest in
        elim err [
          | some e ↦ record {
            object = none;
            error = some (codes "failed to modify manifest: " ++ e);
            writes = [];
            info = info;
          }
          | none ↦
              let (failed, current) = get desired in
              if is_not_found failed
              then record {
                object = some desired;
                error = create desired;
                writes = creates desired ∷ [];
                info = set_created info;
              }
              else elim failed [
                | some e ↦ record {
                  object = some desired;
                  error = some e;
                  writes = [];
                  info = info;
                }
                | none ↦ elim (compute (keep_kcp current) desired) [
                  | fails e ↦ record { object = none; error = some e; writes = []; info = info }
                  | gives d ↦ write_patch desired (keep_kcp current) d info
                ]
              ]
        ]

    -- `ClientSideApplyObject`, from the conversions of the source and the target; `data_for` is
    -- `CreatePatchData`, with the current object as it leaves it
    unfoldable pub client_side_apply_object :
        (Unstructured B → Unstructured B → Answer (Text × Unstructured B))
        → Answer (Unstructured B)
        → Answer (Unstructured B)
        → Option ModificationInfo
        → Run B
    client_side_apply_object data_for (fails e) dst info = record {
      object = none;
      error = some e;
      writes = [];
      info = info;
    }
    client_side_apply_object data_for (gives src) (fails e) info = record {
      object = none;
      error = some e;
      writes = [];
      info = info;
    }
    client_side_apply_object data_for (gives src) (gives current) info =
        let (err, desired) = modify src in
        elim err [
          | some e ↦ record {
            object = none;
            error = some (codes "failed to modify manifest: " ++ e);
            writes = [];
            info = info;
          }
          | none ↦
              if is_not_found none
              then record {
                object = some desired;
                error = create desired;
                writes = creates desired ∷ [];
                info = set_created info;
              }
              else elim (data_for current desired) [
                | fails e ↦ record { object = none; error = some e; writes = []; info = info }
                | gives (d, merged) ↦
                    if d == codes "{}"
                    then record { object = some desired; error = none; writes = []; info = info }
                    else record {
                      object = some desired;
                      error = patch merged d;
                      writes = patches merged d ∷ [];
                      info = set_updated info;
                    }
              ]
        ]
