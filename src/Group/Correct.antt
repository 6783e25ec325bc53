-- ===== src/Group/Correct.antt =====
-- What a group and a set of definitions hold after elements were added.
use kubecrtutils.Prelude.{
  ◌≡◌, refl, sym, Bool, true, not, ◌&&◌, ◌||◌, List, [], ◌∷◌, ◌++◌, Option, none, some,
  if◌then◌else◌, is_some, arith, elem, ◌==◌, ==_iff, Option-cases, inl, inr, ◌∙◌, append_assoc,
  append-nil,
}
use kubecrtutils.Prelude.Text.{Text, codes, text_eq}
use kubecrtutils.Maps.{lookup, lookup-insert}
use kubecrtutils.Group.{
  Subject, is_error, provider, is_string, other, is_nil, Element, Group, Definitions, error_of,
  report, add_one, add, add_to_group, add_definitions, get, exists_text,
}

-- the first element of a name
abbrev pub first_named : Text → List Element → Option Element
first_named n [] = none
first_named n (e ∷ es) = let rest = first_named n es in if e.name == n then some e else rest

abbrev pub or_else : Option Element → Option Element → Option Element
or_else (some e) d = some e
or_else none d = d

module _ {L : Type 0} (add_error : Option Text → L → L)
    (wrap : Option Text → List Text → Option Text) where
  get-add_one :
      (e : Element) (c : Group L) (n : Text)
      → get n (add_one add_error wrap e c).1
        ≡ or_else (get n c) (if e.name == n then some e else none)
  unfolding get add_one
  get-add_one e c n = elim (Option-cases (lookup e.name c.elements)) [
    | inl new ↦ ground (
      arith,
      lookup-insert n e.name e c.elements,
      ==_iff e.name n,
      Option-cases (lookup n c.elements),
    )
    | inr (old, taken) ↦ ground (arith, ==_iff e.name n, Option-cases (lookup n c.elements))
  ]

  -- The first element of a name stays: `Get` finds the element that was there before, or else the
  -- first one of that name among the added ones, whatever errors there were.
  pub get-add :
      (es : List Element) (err : Option Text) (c : Group L) (n : Text)
      → get n (add add_error wrap es err c).1 ≡ or_else (get n c) (first_named n es)
  unfolding add
  get-add [] err c n = ground (arith, Option-cases (get n c))
  get-add (e ∷ es) err c n = ground (
    arith,
    get-add es (add_one add_error wrap e c).0 (add_one add_error wrap e c).1 n,
    get-add_one e c n,
    Option-cases (get n c),
  )

-- no name is taken, in `seen` or by another element, and no element has an error
abbrev pub is_clean : List Text → List Element → Bool
is_clean seen [] = true
is_clean seen (e ∷ es) =
    let rest = is_clean (e.name ∷ seen) es in
    not (elem e.name seen) && (not (is_some (error_of e.subject)) && rest)

-- the elements that are added without an error
abbrev pub accepted : List Text → List Element → List Element
accepted seen [] = []
accepted seen (e ∷ es) =
    let rest = accepted (e.name ∷ seen) es in
    if not (elem e.name seen) && not (is_some (error_of e.subject)) then e ∷ rest else rest

-- a list of the names of the elements of a group
abbrev pub Lists : {L : Type 0} → List Text → Group L → Type 0
Lists seen c = (n : Text) → elem n seen ≡ is_some (get n c)

-- What the library of the error lists promises: only an error is wrapped to an error, and the list
-- is in error exactly after an error was added.
abbrev pub Promises :
    {L : Type 0}
    → (Option Text → L → L)
    → (Option Text → List Text → Option Text)
    → (L → Option Text)
    → Type 0
Promises {L} add_error wrap result =
    ((e : Option Text) (ctx : List Text) → is_some (wrap e ctx) ≡ is_some e)
    × ((e : Option Text) (l : L)
        → is_some (result (add_error e l)) ≡ (is_some e || is_some (result l)))

module _ {L : Type 0} (add_error : Option Text → L → L)
    (wrap : Option Text → List Text → Option Text) (result : L → Option Text)
    (promises : Promises add_error wrap result) where
  report_correct :
      (s : Subject) (ctx : List Text) (l : L)
      → (is_some (report add_error wrap s ctx l).0 ≡ is_some (error_of s))
        × (is_some (result (report add_error wrap s ctx l).1)
            ≡ (is_some (error_of s) || is_some (result l)))
  unfolding report error_of
  report_correct is_nil ctx l = (refl, refl)
  report_correct (is_error t) ctx l =
      ground (arith, promises.0 (some t) ctx, promises.1 (wrap (some t) ctx) l)
  report_correct (provider e) ctx l = ground (arith, promises.0 e ctx, promises.1 (wrap e ctx) l)
  report_correct (is_string t) ctx l =
      ground (arith, promises.0 (some t) ctx, promises.1 (wrap (some t) ctx) l)
  report_correct other ctx l = ground (arith, promises.0 none ctx, promises.1 (wrap none ctx) l)

  add_one_correct :
      (e : Element) (c : Group L)
      → (is_some (add_one add_error wrap e c).0
          ≡ (is_some (get e.name c) || is_some (error_of e.subject)))
        × (is_some (result (add_one add_error wrap e c).1.errlist) ≡ (
            is_some (get e.name c) || (is_some (error_of e.subject) || is_some (result c.errlist))))
  unfolding add_one get error_of
  add_one_correct e c = elim (Option-cases (lookup e.name c.elements)) [
    | inl new ↦
        ground
          (arith, report_correct e.subject ((c.typename ++ (codes " " ++ e.name)) ∷ []) c.errlist)
    | inr (old, taken) ↦
        ground (arith, report_correct (is_error (exists_text c.typename e.name)) [] c.errlist)
  ]

  Lists-add_one :
      (seen : List Text) (e : Element) (c : Group L)
      → Lists seen c
      → Lists (e.name ∷ seen) (add_one add_error wrap e c).1
  Lists-add_one seen e c h n =
      ground (arith, get-add_one add_error wrap e c n, h n, Option-cases (get n c))

  -- A group is in error after an `Add` exactly if it was before, an added element has an error, or
  -- the name of one was taken.
  pub errors_correct :
      (es : List Element) (err : Option Text) (c : Group L) (seen : List Text)
      → Lists seen c
      → is_some (result (add add_error wrap es err c).1.errlist)
        ≡ (not (is_clean seen es) || is_some (result c.errlist))
  unfolding add
  errors_correct [] err c seen h = refl
  errors_correct (e ∷ es) err c seen h = ground (
    arith,
    errors_correct es (add_one add_error wrap e c).0 (add_one add_error wrap e c).1 (e.name ∷ seen)
        (Lists-add_one seen e c h),
    add_one_correct e c,
    h e.name,
  )

  -- the state that `add` leaves does not depend on the error so far
  add_any_error :
      (es : List Element) (err err' : Option Text) (c : Group L)
      → (add add_error wrap es err c).1 ≡ (add add_error wrap es err' c).1
  unfolding add
  add_any_error [] err err' c = refl
  add_any_error (e ∷ es) err err' c = refl

  -- `Add` of definitions leaves the group that `Add` of a group leaves, and offers exactly those
  -- elements to the option set that were added without an error, in their order.
  pub definitions_correct :
      (es : List Element) (d : Definitions L) (seen : List Text)
      → Lists seen d.base
      → ((add_definitions add_error wrap es d).base ≡ (add_to_group add_error wrap es d.base).1)
        × ((add_definitions add_error wrap es d).options ≡ d.options ++ accepted seen es)
  unfolding add_definitions add_to_group add
  definitions_correct [] d seen h = (refl, sym (append-nil d.options))
  definitions_correct (e ∷ es) d seen h = elim (Option-cases (add_one add_error wrap e d.base).0) [
    | inl clean ↦
        let rest =
          definitions_correct es
            (record { base = (add_one add_error wrap e d.base).1; options = d.options ++ e ∷ [] })
            (e.name ∷ seen) (Lists-add_one seen e d.base h) in
        rw (clean, add_definitions)
          (
            rest.0
                ∙ add_any_error es none (add_one add_error wrap e d.base).0
                    (add_one add_error wrap e d.base).1,
            ground (
              arith,
              rest.1,
              h e.name,
              add_one_correct e d.base,
              append_assoc d.options (e ∷ []) (accepted (e.name ∷ seen) es),
            ),
          )
    | inr (t, wrong) ↦
        let rest =
          definitions_correct es
            (record { base = (add_one add_error wrap e d.base).1; options = d.options })
            (e.name ∷ seen) (Lists-add_one seen e d.base h) in
        rw (wrong, add_definitions)
          (
            rest.0
                ∙ add_any_error es none (add_one add_error wrap e d.base).0
                    (add_one add_error wrap e d.base).1,
            ground (
              arith,
              rest.1,
              h e.name,
              add_one_correct e d.base,
              append_assoc d.options (e ∷ []) (accepted (e.name ∷ seen) es),
            ),
          )
  ]

  -- `Add` returns an error exactly if its last element has one or the name of that one was taken,
  -- before or by another added element; the errors of the other elements do not show.
  pub add_returns_last :
      (es : List Element) (e : Element) (err : Option Text) (c : Group L)
      → is_some (add add_error wrap (es ++ e ∷ []) err c).0
        ≡ (is_some (or_else (get e.name c) (first_named e.name es)) || is_some (error_of e.subject))
  unfolding add
  add_returns_last [] e err c = ground (arith, add_one_correct e c, Option-cases (get e.name c))
  add_returns_last (x ∷ es) e err c =
      add_returns_last es e (add_one add_error wrap x c).0 (add_one add_error wrap x c).1
      ∙ ground (arith, get-add_one add_error wrap x c e.name, Option-cases (get e.name c))
