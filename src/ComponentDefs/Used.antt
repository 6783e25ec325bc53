-- ===== src/ComponentDefs/Used.antt =====
-- Which components `GetUsedComponents` collects.
use kubecrtutils.Prelude.{
  ℕ, suc, ◌≡◌, refl, ap, ◌∙◌, Bool, true, false, ◌&&◌, ◌||◌, [], ◌∷◌, some, if◌then◌else◌, elem,
  length, nat_eq, arith, ==_self, Bool-cases, inl, inr,
}
use kubecrtutils.Prelude.Text.{Text, text_eq}
use kubecrtutils.Maps.Sets.{add, elem-add}
use kubecrtutils.Constraints.Context.{Names}
use kubecrtutils.ComponentDefs.{
  Definition, Definitions, Elements, is_used, add_all, collect, modified, until_stable,
  get_used_components,
}

pub elem-add_all :
    (x : Text) (ns names : Names) → elem x (add_all ns names) ≡ (elem x ns || elem x names)
unfolding add_all
elem-add_all x [] names = refl
elem-add_all x (n ∷ ns) names =
    elem-add_all x ns (add n names) ∙ (ap (λ b. elem x ns || b) (elem-add x n names) ∙ ground arith)

-- a used definition of a list requires a name
unfoldable pub requires : (Definition → Bool) → (Definition → Names) → Text → Elements → Bool
requires used names_of x [] = false
requires used names_of x ((n, c) ∷ elements) =
    used c && elem x (names_of c) || requires used names_of x elements

module _ (used : Definition → Bool) where
  elem-collect :
      (names_of : Definition → Names) (x : Text) (elements : Elements) (names : Names)
      → elem x (collect used names_of elements names)
        ≡ (requires used names_of x elements || elem x names)
  unfolding collect requires
  elem-collect names_of x [] names = refl
  elem-collect names_of x ((n, c) ∷ elements) names =
      elem-collect names_of x elements (if used c then add_all (names_of c) names else names)
      ∙ ground (arith, elem-add_all x (names_of c) names)

  add_all-known :
      (ns names : Names)
      → ((x : Text) → elem x ns ≡ true → elem x names ≡ true)
      → add_all ns names ≡ names
  unfolding add_all add
  add_all-known [] names h = refl
  add_all-known (n ∷ ns) names h =
      let known = h n (ground (arith, ==_self n)) in
      ap (add_all ns) (ground (arith, known))
      ∙ add_all-known ns names (λ x m. h x (ground (arith, m)))

  -- a range that finds nothing new
  collect-known :
      (elements : Elements) (names : Names)
      → ((x : Text)
          → requires used (λ c. c.required_components) x elements ≡ true
          → elem x names ≡ true)
      → (collect used (λ c. c.required_components) elements names ≡ names)
        × (modified used elements names false ≡ false)
  unfolding collect modified requires
  collect-known [] names h = (refl, refl)
  collect-known ((n, c) ∷ elements) names h = elim (Bool-cases (used c)) [
    | inl is ↦
        let same = add_all-known c.required_components names (λ x m. h x (ground (arith, is, m))) in
        let (whole, unchanged) = collect-known elements names (λ x m. h x (ground (arith, m))) in
        (rw (collect, is, same) whole, rw (modified, is, same, ==_self (length names)) unchanged)
    | inr no_use ↦
        let (whole, unchanged) = collect-known elements names (λ x m. h x (ground (arith, m))) in
        (rw (collect, no_use) whole, rw (modified, no_use) unchanged)
  ]

  requires-collected :
      (ranges : ℕ → Elements) (names : Names)
      → ((i : ℕ) (x : Text)
          → requires used (λ c. c.required_components) x (ranges i)
            ≡ requires used (λ c. c.required_components) x (ranges 0))
      → (j : ℕ) (x : Text) → requires used (λ c. c.required_components) x (ranges j) ≡ true
      → elem x (collect used (λ c. c.required_components) (ranges 0) names) ≡ true
  requires-collected ranges names same j x h =
      elem-collect (λ c. c.required_components) x (ranges 0) names ∙ ground (arith, h, same j x)

  until_stable-two :
      (ranges : ℕ → Elements) (fuel : ℕ)
      → ((i : ℕ) (x : Text)
          → requires used (λ c. c.required_components) x (ranges i)
            ≡ requires used (λ c. c.required_components) x (ranges 0))
      → until_stable used ranges (suc (suc fuel)) 0 []
        ≡ some (collect used (λ c. c.required_components) (ranges 0) [])
  unfolding until_stable
  until_stable-two ranges fuel same =
      let (whole, unchanged) =
        collect-known (ranges 1) (collect used (λ c. c.required_components) (ranges 0) [])
          (requires-collected ranges [] same 1) in
      elim (Bool-cases (modified used (ranges 0) [] false)) [
        | inl more ↦ rw (until_stable, more, until_stable, unchanged) (ap some whole)
        | inr stable ↦ rw (until_stable, stable) refl
      ]

-- Two rounds of `GetUsedComponents` are enough, and it collects the names that the used components require: the
-- components that are required only by these do not count as used. (Every range is over the same
-- components.)
pub get_used_components_correct :
    (fuel : ℕ) (ranges : ℕ → Elements) (d : Definitions)
    → ((i : ℕ) (x : Text)
        → requires (λ c. (is_used d.cctx d.required c).0) (λ c. c.required_components) x (ranges i)
          ≡ requires
              (λ c. (is_used d.cctx d.required c).0)
              (λ c. c.required_components)
              x
              (ranges 0))
    → (names : Names) × (get_used_components (suc (suc fuel)) ranges d ≡ some names)
      × ((x : Text)
          → elem x names
            ≡ requires
                (λ c. (is_used d.cctx d.required c).0)
                (λ c. c.required_components)
                x
                (ranges 0))
unfolding get_used_components
get_used_components_correct fuel ranges d same =
    let used = λ (c : Definition). (is_used d.cctx d.required c).0 in
    (
      collect used (λ c. c.required_components) (ranges 0) [],
      until_stable-two used ranges fuel same,
      λ x. elem-collect used (λ c. c.required_components) x (ranges 0) [] ∙ ground arith,
    )
