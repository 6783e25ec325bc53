-- ===== src/ActivationOpts/Leaves.antt =====
-- The names that `handle` passes to its method, in their order, and that it comes to an end.
use kubecrtutils.Prelude.{
  ℕ, zero, suc, ◌<◌, ◌≡◌, refl, ap, sym, ◌∙◌, true, false, not, ◌&&◌, ◌||◌, [], ◌∷◌, ◌++◌, Option,
  none, some, elem, is_some, arith, ==_self, Bool-cases, Option-cases, inl, inr,
}
use kubecrtutils.Prelude.Text.{Text, text_eq}
use kubecrtutils.Maps.{GoMap}
use kubecrtutils.Maps.Sets.{add, remove, elem-add, elem-remove}
use kubecrtutils.Maps.Count.{count, count-drop}
use kubecrtutils.ActivationOpts.{ControllerSet, Names, resolve, list_of, each, handle}

-- the method, called on each name of a list
unfoldable pub apply_all : (Text → Names → Names) → Names → Names → Names
apply_all h [] names = names
apply_all h (x ∷ xs) names = apply_all h xs (h x names)

pub apply_all-append :
    (h : Text → Names → Names) (xs ys names : Names)
    → apply_all h (xs ++ ys) names ≡ apply_all h ys (apply_all h xs names)
unfolding apply_all
apply_all-append h [] ys names = refl
apply_all-append h (x ∷ xs) ys names = apply_all-append h xs ys (h x names)

apply_all-same :
    (h : Text → Names → Names) (xs ys names : Names)
    → some xs ≡ some ys
    → some (apply_all h xs names) ≡ some (apply_all h ys names)
apply_all-same h xs ys names e =
    let same : xs ≡ ys = cc e in ap (λ l. some (apply_all h l names)) same

pub elem-apply_all-add :
    (x : Text) (xs names : Names) → elem x (apply_all add xs names) ≡ (elem x xs || elem x names)
unfolding apply_all
elem-apply_all-add x [] names = refl
elem-apply_all-add x (y ∷ xs) names =
    elem-apply_all-add x xs (add y names)
    ∙ (ap (λ b. elem x xs || b) (elem-add x y names) ∙ ground arith)

pub elem-apply_all-remove :
    (x : Text) (xs names : Names)
    → elem x (apply_all remove xs names) ≡ (not (elem x xs) && elem x names)
unfolding apply_all
elem-apply_all-remove x [] names = refl
elem-apply_all-remove x (y ∷ xs) names =
    elem-apply_all-remove x xs (remove y names)
    ∙ (ap (λ b. not (elem x xs) && b) (elem-remove x y names) ∙ ground arith)

-- lists one behind the other
unfoldable pub concat_all : (Text → Option Names) → Names → Option Names
concat_all f [] = some []
concat_all f (n ∷ ns) = elim (f n) [
  | none ↦ none
  | some xs ↦ elim (concat_all f ns) [ none ↦ none | some ys ↦ some (xs ++ ys) ]
]

module _ (f : Text → Option Names) where
  concat_all-stop : (n : Text) (ns : Names) → f n ≡ none → concat_all f (n ∷ ns) ≡ none
  unfolding concat_all
  concat_all-stop n ns nothing = rw (concat_all, nothing) refl

  concat_all-stop_later :
      (n : Text) (ns xs : Names)
      → f n ≡ some xs
      → concat_all f ns ≡ none
      → concat_all f (n ∷ ns) ≡ none
  unfolding concat_all
  concat_all-stop_later n ns xs found nothing = rw (concat_all, found, nothing) refl

  pub concat_all-cons :
      (n : Text) (ns xs ys : Names)
      → f n ≡ some xs
      → concat_all f ns ≡ some ys
      → concat_all f (n ∷ ns) ≡ some (xs ++ ys)
  unfolding concat_all
  concat_all-cons n ns xs ys found rest = rw (concat_all, found, rest) refl

  -- the parts of a result
  pub concat_all-split :
      (n : Text) (ns xs : Names)
      → concat_all f (n ∷ ns) ≡ some xs
      → (ys : Names) × (zs : Names) × (f n ≡ some ys)
        × (concat_all f ns ≡ some zs)
        × (ys ++ zs ≡ xs)
  concat_all-split n ns xs e = elim (Option-cases (f n)) [
    | inl nothing ↦ absurd (cc (sym (concat_all-stop n ns nothing) ∙ e))
    | inr (ys, found) ↦ elim (Option-cases (concat_all f ns)) [
      | inl nothing ↦ absurd (cc (sym (concat_all-stop_later n ns ys found nothing) ∙ e))
      | inr (zs, rest) ↦ (ys, zs, found, rest, cc (sym (concat_all-cons n ns ys zs found rest) ∙ e))
    ]
  ]

module _ (s : ControllerSet) (simplified : GoMap Text Text) where
  -- the names that `handle` passes to its method
  unfoldable pub leaves : ℕ → Text → Names → Option Names
  unfolding concat_all resolve
  leaves zero name handled = none
  leaves (suc fuel) name handled =
      let n = resolve simplified name in
      elim (elem n handled) [
        | true ↦ some []
        | false ↦ elim (list_of s n) [
          | none ↦ some (n ∷ [])
          | some list ↦ concat_all (λ m. leaves fuel m (n ∷ handled)) list
        ]
      ]

  -- the names that are not handled yet
  unfoldable pub unhandled : Names → Names → ℕ
  unhandled us handled = count (λ u. elem u handled) us

  -- every name with a list is among `us`
  concat_all-some :
      (f : Text → Option Names) (ns : Names)
      → ((n : Text) → is_some (f n) ≡ true)
      → is_some (concat_all f ns) ≡ true
  unfolding concat_all
  concat_all-some f [] total = refl
  concat_all-some f (n ∷ ns) total = elim (Option-cases (f n)) [
    | inl nothing ↦ ground (arith, total n, nothing)
    | inr (xs, found) ↦ elim (Option-cases (concat_all f ns)) [
      | inl nothing ↦ ground (arith, concat_all-some f ns total, nothing)
      | inr (ys, rest) ↦ rw (concat_all, found, rest) refl
    ]
  ]

  -- fuel for the names that are not handled and one more is enough
  pub leaves-some :
      (us : Names)
      → ((n : Text) → is_some (list_of s n) ≡ true → elem n us ≡ true)
      → (fuel : ℕ) (name : Text) (handled : Names) → unhandled us handled < fuel
      → is_some (leaves fuel name handled) ≡ true
  unfolding leaves unhandled
  leaves-some us inside zero name handled enough = ground (arith, enough)
  leaves-some us inside (suc fuel) name handled enough =
      let n = resolve simplified name in
      elim (Bool-cases (elem n handled)) [
        | inl seen ↦ rw (leaves, seen) refl
        | inr new ↦ elim (Option-cases (list_of s n)) [
          | inl nothing ↦ rw (leaves, new, nothing) refl
          | inr (list, found) ↦
              let drop =
                count-drop (λ u. elem u handled) (λ u. elem u (n ∷ handled)) n us
                  (λ u h. ground (arith, h)) new (ground (arith, ==_self n))
                  (inside n (ap is_some found)) in
              rw (leaves, new, found)
                (concat_all-some (λ m. leaves fuel m (n ∷ handled)) list
                  (λ m. leaves-some us inside fuel m (n ∷ handled) (omega (arith, drop, enough))))
        ]
      ]

  -- the three branches
  pub leaves-seen :
      (fuel : ℕ) (name : Text) (handled : Names)
      → elem (resolve simplified name) handled ≡ true
      → leaves (suc fuel) name handled ≡ some []
  unfolding leaves
  leaves-seen fuel name handled seen = rw (leaves, seen) refl

  pub leaves-single :
      (fuel : ℕ) (name : Text) (handled : Names)
      → elem (resolve simplified name) handled ≡ false
      → list_of s (resolve simplified name) ≡ none
      → leaves (suc fuel) name handled ≡ some (resolve simplified name ∷ [])
  unfolding leaves
  leaves-single fuel name handled new nothing = rw (leaves, new, nothing) refl

  pub leaves-group :
      (fuel : ℕ) (name : Text) (handled list : Names)
      → elem (resolve simplified name) handled ≡ false
      → list_of s (resolve simplified name) ≡ some list
      → leaves (suc fuel) name handled
        ≡ concat_all (λ m. leaves fuel m (resolve simplified name ∷ handled)) list
  unfolding leaves
  leaves-group fuel name handled list new found = rw (leaves, new, found) refl

  -- a loop over calls of the method
  each-concat_all :
      (h : Text → Names → Names) (f : Text → Option Names) (step : Text → Names → Option Names)
      → ((m : Text) (acc ys : Names) → f m ≡ some ys → step m acc ≡ some (apply_all h ys acc))
      → (list acc xs : Names) → concat_all f list ≡ some xs
      → each step list acc ≡ some (apply_all h xs acc)
  unfolding each concat_all apply_all
  each-concat_all h f step same [] acc xs e = apply_all-same h [] xs acc e
  each-concat_all h f step same (m ∷ list) acc xs e =
      let (ys, zs, found, rest, whole) = concat_all-split f m list xs e in
      rw (each, same m acc ys found)
        (each-concat_all h f step same list (apply_all h ys acc) zs rest
          ∙ (ap some (sym (apply_all-append h ys zs acc))
              ∙ ap (λ l. some (apply_all h l acc)) whole))

  -- what `handle` does is to call its method on the leaves
  pub handle-leaves :
      (h : Text → Names → Names) (fuel : ℕ) (name : Text) (handled names xs : Names)
      → leaves fuel name handled ≡ some xs
      → handle s simplified h fuel name handled names ≡ some (apply_all h xs names)
  unfolding leaves handle apply_all
  handle-leaves h zero name handled names xs e = absurd (cc e)
  handle-leaves h (suc fuel) name handled names xs e =
      let n = resolve simplified name in
      elim (Bool-cases (elem n handled)) [
        | inl seen ↦
            rw (handle, seen)
              (apply_all-same h [] xs names (sym (leaves-seen fuel name handled seen) ∙ e))
        | inr new ↦ elim (Option-cases (list_of s n)) [
          | inl nothing ↦
              rw (handle, new, nothing)
                (apply_all-same h (n ∷ []) xs names
                  (sym (leaves-single fuel name handled new nothing) ∙ e))
          | inr (list, found) ↦
              rw (handle, new, found)
                (each-concat_all h (λ m. leaves fuel m (n ∷ handled))
                  (λ m acc. handle s simplified h fuel m (n ∷ handled) acc)
                  (λ m acc ys. handle-leaves h fuel m (n ∷ handled) acc ys) list names xs
                  (sym (leaves-group fuel name handled list new found) ∙ e))
        ]
      ]
