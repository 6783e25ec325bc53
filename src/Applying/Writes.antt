-- ===== src/Applying/Writes.antt =====
-- How often the functions write, and what the flags say of it.
use kubecrtutils.Prelude.{
  ◌≡◌, ◌≢◌, refl, Bool, true, false, [], ◌∷◌, ◌++◌, some, Option, none, ◌==◌, arith, ==_iff,
  Bool-cases, Option-cases, inl, inr, ◌⊎◌,
}
use kubecrtutils.Prelude.Text.{Text, codes, text_eq}
use kubecrtutils.Applying.{
  Unstructured, creates, patches, ModificationInfo, set_created, set_updated, Answer, fails, gives,
  Modifier, Run, write_patch, client_side_apply, client_side_apply_object, keep_kcp,
}

Answer-cases :
    {A : Type 0} (a : Answer A) → ((e : Text) × (a ≡ fails e)) ⊎ ((v : A) × (a ≡ gives v))
Answer-cases (fails e) = inl (e, refl)
Answer-cases (gives v) = inr (v, refl)

module _ {B : Type 0} (is_not_found : Option Text → Bool)
    (get : Unstructured B → Option Text × Unstructured B) (modify : Modifier B)
    (create : Unstructured B → Option Text) (patch : Unstructured B → Text → Option Text)
    (compute : Unstructured B → Unstructured B → Answer Text) where
  -- why nothing is written, and the error that is then returned
  pub data Unwritten : Answer (Unstructured B) → Option Text → Type 0 where
    not_decoded : (e : Text) → Unwritten (fails e) (some e)
    not_modified :
        (manifest : Unstructured B) (e : Text)
        → (modify manifest).0 ≡ some e
        → Unwritten (gives manifest) (some (codes "failed to modify manifest: " ++ e))
    not_looked_up :
        (manifest : Unstructured B) (e : Text)
        → (modify manifest).0 ≡ none
        → is_not_found (get (modify manifest).1).0 ≡ false
        → (get (modify manifest).1).0 ≡ some e
        → Unwritten (gives manifest) (some e)
    not_merged :
        (manifest : Unstructured B) (e : Text)
        → (modify manifest).0 ≡ none
        → is_not_found (get (modify manifest).1).0 ≡ false
        → (get (modify manifest).1).0 ≡ none
        → compute (keep_kcp (get (modify manifest).1).1) (modify manifest).1 ≡ fails e
        → Unwritten (gives manifest) (some e)
    not_changed :
        (manifest : Unstructured B) (d : Text)
        → (modify manifest).0 ≡ none
        → is_not_found (get (modify manifest).1).0 ≡ false
        → (get (modify manifest).1).0 ≡ none
        → compute (keep_kcp (get (modify manifest).1).1) (modify manifest).1 ≡ gives d
        → (d ≡ codes "{}") ⊎ (d ≡ [])
        → Unwritten (gives manifest) none

  -- a run that wrote nothing, created the missing object, or patched the one that was found
  pub data IsRecorded (info : Option ModificationInfo) (r : Run B)
      : Answer (Unstructured B) → Type 0 where
    quiet :
        (manifest : Answer (Unstructured B))
        → Unwritten manifest r.error
        → r.writes ≡ []
        → r.info ≡ info
        → IsRecorded info r manifest
    creation :
        (manifest : Unstructured B)
        → (modify manifest).0 ≡ none
        → is_not_found (get (modify manifest).1).0 ≡ true
        → r.writes ≡ creates (modify manifest).1 ∷ []
        → r.info ≡ set_created info
        → r.error ≡ create (modify manifest).1
        → IsRecorded info r (gives manifest)
    update :
        (manifest : Unstructured B) (d : Text)
        → (modify manifest).0 ≡ none
        → is_not_found (get (modify manifest).1).0 ≡ false
        → (get (modify manifest).1).0 ≡ none
        → compute (keep_kcp (get (modify manifest).1).1) (modify manifest).1 ≡ gives d
        → d ≢ codes "{}"
        → d ≢ []
        → r.writes ≡ patches (keep_kcp (get (modify manifest).1).1) d ∷ []
        → r.info ≡ set_updated info
        → r.error ≡ patch (keep_kcp (get (modify manifest).1).1) d
        → IsRecorded info r (gives manifest)

  write_patch-IsRecorded :
      (manifest : Unstructured B) (d : Text) (info : Option ModificationInfo)
      → (modify manifest).0 ≡ none
      → is_not_found (get (modify manifest).1).0 ≡ false
      → (get (modify manifest).1).0 ≡ none
      → compute (keep_kcp (get (modify manifest).1).1) (modify manifest).1 ≡ gives d
      → IsRecorded info
          (write_patch is_not_found get modify create patch compute
            (modify manifest).1
            (keep_kcp (get (modify manifest).1).1)
            d
            info)
          (gives manifest)
  unfolding write_patch
  write_patch-IsRecorded manifest d info ok there fetched made =
      elim (Bool-cases (d == codes "{}")) [
        | inl empty ↦
            rw (write_patch, empty)
              (quiet (gives manifest)
                (not_changed manifest d ok there fetched made
                  (inl ((==_iff d (codes "{}")).0 empty)))
                refl refl)
        | inr full ↦ elim (Bool-cases (d == [])) [
          | inl empty ↦
              rw (write_patch, full, empty)
                (quiet (gives manifest)
                  (not_changed manifest d ok there fetched made (inr ((==_iff d []).0 empty))) refl
                  refl)
          | inr some_text ↦
              rw (write_patch, full, some_text)
                (update manifest d ok there fetched made
                  (ground (arith, full, ==_iff d (codes "{}")))
                  (ground (arith, some_text, ==_iff d [])) refl refl refl)
        ]
      ]

  -- `ClientSideApply`, once it has decoded and modified the manifest, creates the desired object exactly if
  -- the lookup does not find it, and patches the one that is found exactly if the patch is neither
  -- empty nor `{}`; it writes nothing else and at most once.
  -- The flags that it sets tell which write that was, whether it succeeded or not, and the error
  -- that is returned is that of the write, or else that of the step that failed.
  pub client_side_apply-IsRecorded :
      (manifest : Answer (Unstructured B)) (info : Option ModificationInfo)
      → IsRecorded info
          (client_side_apply is_not_found get modify create patch compute manifest info)
          manifest
  unfolding client_side_apply
  client_side_apply-IsRecorded (fails e) info = quiet (fails e) (not_decoded e) refl refl
  client_side_apply-IsRecorded (gives manifest) info = elim (Option-cases (modify manifest).0) [
    | inr (e, failed) ↦
        rw (client_side_apply, failed)
          (quiet (gives manifest) (not_modified manifest e failed) refl refl)
    | inl ok ↦
        let desired = (modify manifest).1 in
        let found = get desired in
        elim (Bool-cases (is_not_found found.0)) [
          | inl missing ↦
              rw (client_side_apply, ok, missing) (creation manifest ok missing refl refl refl)
          | inr there ↦ elim (Option-cases found.0) [
            | inr (e, failed) ↦
                rw (client_side_apply, ok, there, failed)
                  (quiet (gives manifest) (not_looked_up manifest e ok there failed) refl refl)
            | inl fetched ↦ elim (Answer-cases (compute (keep_kcp found.1) desired)) [
              | inl (e, failed) ↦
                  rw (client_side_apply, ok, there, fetched, failed)
                    (quiet (gives manifest) (not_merged manifest e ok there fetched failed) refl
                      refl)
              | inr (d, made) ↦
                  rw (client_side_apply, ok, there, fetched, made)
                    (write_patch-IsRecorded manifest d info ok there fetched made)
            ]
          ]
        ]
  ]

  -- `ClientSideApplyObject` never creates an object: it writes nothing, or it patches one and sets the
  -- flag for that. (No error is not the error of an object that is not found.)
  pub client_side_apply_object_updates :
      (data_for : Unstructured B → Unstructured B → Answer (Text × Unstructured B))
      (src dst : Answer (Unstructured B)) (info : Option ModificationInfo)
      → is_not_found none ≡ false
      → let r =
          client_side_apply_object is_not_found get modify create patch compute data_for src dst
            info in
        ((r.writes ≡ []) × (r.info ≡ info))
        ⊎ ((o : Unstructured B) × (d : Text) × (r.writes ≡ patches o d ∷ [])
            × (r.info ≡ set_updated info)
            × (r.error ≡ patch o d))
  unfolding client_side_apply_object
  client_side_apply_object_updates data_for (fails e) dst info no_error = inl (refl, refl)
  client_side_apply_object_updates data_for (gives src) (fails e) info no_error = inl (refl, refl)
  client_side_apply_object_updates data_for (gives src) (gives current) info no_error =
      elim (Option-cases (modify src).0) [
        | inr (e, failed) ↦ rw (client_side_apply_object, failed) (inl (refl, refl))
        | inl ok ↦ elim (Answer-cases (data_for current (modify src).1)) [
          | inl (e, failed) ↦ rw (client_side_apply_object, ok, no_error, failed) (inl (refl, refl))
          | inr ((d, merged), made) ↦ elim (Bool-cases (d == codes "{}")) [
            | inl empty ↦
                rw (client_side_apply_object, ok, no_error, made, empty) (inl (refl, refl))
            | inr full ↦
                rw (client_side_apply_object, ok, no_error, made, full)
                  (inr (merged, d, refl, refl, refl))
          ]
        ]
      ]
