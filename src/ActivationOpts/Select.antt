-- ===== src/ActivationOpts/Select.antt =====
-- What `handle` and `GetActivation` select.
use kubecrtutils.Prelude.{
  ℕ, suc, ◌≡◌, refl, ap, ◌∙◌, Bool, true, false, not, ◌&&◌, ◌||◌, [], ◌∷◌, Option, none, some,
  if◌then◌else◌, elem, is_some, length, drop, arith, ==_iff, Bool-cases, inl, inr, ◌⊎◌, ◌↔◌,
}
use kubecrtutils.Prelude.Text.{Text, text_eq}
use kubecrtutils.Strings.{starts_with}
use kubecrtutils.Maps.{GoMap, keys, elem-keys}
use kubecrtutils.Maps.Sets.{add, remove, elem-add}
use kubecrtutils.Maps.Count.{count-le}
use kubecrtutils.ActivationOpts.{
  ControllerSet, Options, Names, all_name, list_of, handle, entries, activate, initial, each,
  get_activation, simplify, minus, plus, add_all,
}
use kubecrtutils.ActivationOpts.Leaves.{
  leaves, leaves-some, unhandled, handle-leaves, apply_all, elem-apply_all-add,
  elem-apply_all-remove,
}
use kubecrtutils.ActivationOpts.Reach.{Leads, leaves-Leads, Leads-leaves}

-- the groups of a set
unfoldable pub group_list : Option (GoMap Text Names) → Names
group_list none = []
group_list (some g) = keys g

-- as many calls one in the other as there are groups, one for all controllers and one for a leaf
unfoldable pub activation_fuel : ControllerSet → ℕ
activation_fuel s = suc (suc (length (group_list s.groups)))

-- only a group and the name for all controllers have a list
has_list :
    (names : Option Names) (groups : Option (GoMap Text Names)) (n : Text)
    → is_some (list_of (record { names = names; groups = groups }) n) ≡ true
    → elem n (all_name ∷ group_list groups) ≡ true
unfolding list_of group_list
has_list names none n h = ground (arith, h, ==_iff n all_name, ==_iff all_name n)
has_list names (some g) n h = ground (arith, h, elem-keys n g, ==_iff n all_name, ==_iff all_name n)

some-entries : (o : Option Names) → is_some o ≡ true → o ≡ some (entries o)
unfolding entries
some-entries none h = absurd (ground (arith, h))
some-entries (some l) h = refl

module _ (s : ControllerSet) (simplified : GoMap Text Text) where
  leaves-total : (name : Text) → is_some (leaves s simplified (activation_fuel s) name []) ≡ true
  unfolding activation_fuel unhandled
  leaves-total name =
      leaves-some s simplified (all_name ∷ group_list s.groups) (has_list s.names s.groups)
        (activation_fuel s) name []
        (let few = count-le (λ u. elem u []) (all_name ∷ group_list s.groups) in omega (arith, few))

  -- the controllers of a name
  unfoldable pub leaves_of : Text → Names
  leaves_of name = entries (leaves s simplified (activation_fuel s) name [])

  leaves-leaves_of :
      (name : Text) → leaves s simplified (activation_fuel s) name [] ≡ some (leaves_of name)
  unfolding leaves_of
  leaves-leaves_of name =
      some-entries (leaves s simplified (activation_fuel s) name []) (leaves-total name)

  -- the controllers of a name are those that it leads to
  pub leaves_of_iff :
      (name x : Text) → (elem x (leaves_of name) ≡ true) ↔ Leads s simplified [] name x
  leaves_of_iff name x = (
    leaves-Leads s simplified (activation_fuel s) name x [] (leaves_of name)
        (leaves-leaves_of name),
    Leads-leaves s simplified (activation_fuel s) name x [] (leaves_of name)
        (leaves-leaves_of name),
  )

  -- `handle` adds or deletes exactly the names without a list that the name leads to through the lists of
  -- groups, however these are nested and even if they are cyclic; as many calls in
  -- each other as there are groups and two more are enough.
  pub handle_correct :
      (name : Text) (names : Names)
      → ((more : Names) × (handle s simplified add (activation_fuel s) name [] names ≡ some more)
          × ((x : Text)
              → (elem x more ≡ true) ↔ ((elem x names ≡ true) ⊎ Leads s simplified [] name x)))
        × ((less : Names) × (handle s simplified remove (activation_fuel s) name [] names
              ≡ some less)
            × ((x : Text)
                → (elem x less ≡ true) ↔ ((elem x names ≡ true) × ¬ Leads s simplified [] name x)))
  handle_correct name names = (
    (
      apply_all add (leaves_of name) names,
      handle-leaves s simplified add (activation_fuel s) name [] names (leaves_of name)
          (leaves-leaves_of name),
      λ x. (
        λ h. elim (Bool-cases (elem x names)) [
          | inl before ↦ inl before
          | inr new ↦ inr (
              (leaves_of_iff name x).0
                (ground (arith, h, new, elem-apply_all-add x (leaves_of name) names)))
        ],
        λ h. elim h [
          | inl before ↦ ground (arith, before, elem-apply_all-add x (leaves_of name) names)
          | inr path ↦
              ground
                (arith, (leaves_of_iff name x).1 path, elem-apply_all-add x (leaves_of name) names)
        ],
      ),
    ),
    (
      apply_all remove (leaves_of name) names,
      handle-leaves s simplified remove (activation_fuel s) name [] names (leaves_of name)
          (leaves-leaves_of name),
      λ x. (
        λ h. (
          ground (arith, h, elem-apply_all-remove x (leaves_of name) names),
          λ path. ground (
            arith,
            (leaves_of_iff name x).1 path,
            h,
            elem-apply_all-remove x (leaves_of name) names,
          ),
        ),
        λ h. elim (Bool-cases (elem x (leaves_of name))) [
          | inl leaf ↦ absurd (h.1 ((leaves_of_iff name x).0 leaf))
          | inr other ↦ ground (arith, other, h.0, elem-apply_all-remove x (leaves_of name) names)
        ],
      ),
    ),
  )

  -- the name of an entry without its sign
  unfoldable pub unsigned : Text → Text
  unsigned name =
      if starts_with minus name
      then drop 1 name
      else if starts_with plus name
      then drop 1 name
      else name

  -- the last entry that leads to a controller decides about it
  unfoldable pub last_word : Text → Names → Bool → Bool
  unfolding unsigned
  last_word x [] before = before
  last_word x (name ∷ activated) before =
      last_word x activated
        (if elem x (leaves_of (unsigned name)) then not (starts_with minus name) else before)

  activate-step :
      (name : Text) (names : Names)
      → (next : Names) × (activate s simplified (activation_fuel s) name names ≡ some next)
        × ((x : Text)
            → elem x next ≡ (
                if elem x (leaves_of (unsigned name))
                then not (starts_with minus name)
                else elem x names))
  unfolding activate unsigned
  activate-step name names = elim (Bool-cases (starts_with minus name)) [
    | inl takes ↦ (
      apply_all remove (leaves_of (drop 1 name)) names,
      rw (activate, takes)
          (handle-leaves s simplified remove (activation_fuel s) (drop 1 name) [] names
            (leaves_of (drop 1 name)) (leaves-leaves_of (drop 1 name))),
      λ x. rw takes (elem-apply_all-remove x (leaves_of (drop 1 name)) names ∙ ground arith),
    )
    | inr adds ↦ elim (Bool-cases (starts_with plus name)) [
      | inl sign ↦ (
        apply_all add (leaves_of (drop 1 name)) names,
        rw (activate, adds, sign)
            (handle-leaves s simplified add (activation_fuel s) (drop 1 name) [] names
              (leaves_of (drop 1 name)) (leaves-leaves_of (drop 1 name))),
        λ x. rw (adds, sign) (elem-apply_all-add x (leaves_of (drop 1 name)) names ∙ ground arith),
      )
      | inr plain ↦ (
        apply_all add (leaves_of name) names,
        rw (activate, adds, plain)
            (handle-leaves s simplified add (activation_fuel s) name [] names (leaves_of name)
              (leaves-leaves_of name)),
        λ x. rw (adds, plain) (elem-apply_all-add x (leaves_of name) names ∙ ground arith),
      )
    ]
  ]

  each-activate :
      (activated names : Names)
      → (result : Names) × (each (activate s simplified (activation_fuel s)) activated names
          ≡ some result)
        × ((x : Text) → elem x result ≡ last_word x activated (elem x names))
  unfolding each last_word
  each-activate [] names = (names, refl, λ x. refl)
  each-activate (name ∷ activated) names =
      let (next, went, chosen) = activate-step name names in
      let (result, rest, decided) = each-activate activated next in
      (result, rw (each, went) rest, λ x. decided x ∙ ap (last_word x activated) (chosen x))

elem-add_all :
    (x : Text) (ns names : Names) → elem x (add_all ns names) ≡ (elem x ns || elem x names)
unfolding add_all
elem-add_all x [] names = refl
elem-add_all x (n ∷ ns) names =
    elem-add_all x ns (add n names) ∙ (ap (λ b. elem x ns || b) (elem-add x n names) ∙ ground arith)

-- the controllers that the loop starts with
unfoldable pub starts_selected : ControllerSet → Names → Text → Bool
starts_selected s [] x = false
starts_selected s (name ∷ rest) x = starts_with minus name && elem x (entries s.names)

elem-initial :
    (s : ControllerSet) (activated : Names) (x : Text)
    → elem x (initial s activated) ≡ starts_selected s activated x
unfolding initial starts_selected
elem-initial s [] x = refl
elem-initial s (name ∷ rest) x = ground (arith, elem-add_all x (entries s.names) [])

-- `GetActivation` returns, and the last entry that leads to a controller decides about it; where none does, a
-- controller is selected exactly if the first entry takes some away. What an entry leads to is what
-- its name leads to without the sign, through short names and the lists of groups.
pub get_activation_correct :
    (o : Options)
    → (names : Names) × (get_activation (activation_fuel o.set) o ≡ some names)
      × ((x : Text)
          → elem x names
            ≡ last_word o.set
                (simplify o.names)
                x
                o.activated
                (starts_selected o.set o.activated x))
      × ((name x : Text)
          → (elem x (leaves_of o.set (simplify o.names) name) ≡ true)
            ↔ Leads o.set (simplify o.names) [] name x)
unfolding get_activation
get_activation_correct o =
    let (result, went, decided) =
      each-activate o.set (simplify o.names) o.activated (initial o.set o.activated) in
    (
      result,
      went,
      λ x.
          decided x
          ∙ ap (last_word o.set (simplify o.names) x o.activated)
              (elem-initial o.set o.activated x),
      λ name x. leaves_of_iff o.set (simplify o.names) name x,
    )
