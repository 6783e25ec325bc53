-- ===== src/ActivationOpts/Stays.antt =====
-- What the entries of `Simplify` keep: a text stands for the first name that took it.
use kubecrtutils.Prelude.{
  ℕ, zero, suc, ◌-◌, ◌≡◌, ◌≢◌, refl, ap, sym, ◌∙◌, subst, true, false, List, [], ◌∷◌, ◌++◌, none,
  some, ◌==◌, elem, length, drop, arith, ==_iff, ==_self, Bool-cases, Option-cases, inl, inr,
  nat_eq,
}
use kubecrtutils.Prelude.Text.{Text, text_eq}
use kubecrtutils.Strings.{split, join, Lacks}
use kubecrtutils.Strings.Split.{split-Lacks}
use kubecrtutils.Maps.{GoMap, lookup, insert, lookup-insert}
use kubecrtutils.ActivationOpts.{Names, shorten, simplify_one, simplify_from, dot}

module _ (left i : ℕ) (comps : List Text) (n t : Text) (result : GoMap Text Text)
    (at : join dot (drop (length comps - i - 1) comps) ≡ t) where
  pub shorten-free :
      lookup t result ≡ none → shorten (suc left) i comps n result ≡ insert t n result
  unfolding shorten
  shorten-free nothing = rw (shorten, at, nothing) (ap (λ x. insert x n result) at)

  pub shorten-taken :
      (old : Text)
      → lookup t result ≡ some old
      → old ≢ []
      → shorten (suc left) i comps n result ≡ shorten left (suc i) comps n result
  unfolding shorten
  shorten-taken old found full =
      let taken : (old == []) ≡ false = ground (arith, full, ==_iff old []) in
      rw (shorten, at, found, taken) refl

-- an entry for a text stays, when the text has several parts or is its own entry
module _ (t m : Text) (full : m ≢ []) where
  insert-keeps :
      (u n : Text) (result : GoMap Text Text)
      → lookup t result ≡ some m
      → (u ≡ t → n ≡ m)
      → lookup t (insert u n result) ≡ some m
  insert-keeps u n result found same = elim (Bool-cases (u == t)) [
    | inl equal ↦ lookup-insert t u n result ∙ ground (arith, equal, same ((==_iff u t).0 equal))
    | inr other ↦ lookup-insert t u n result ∙ ground (arith, other, found)
  ]

  vacant :
      (u n : Text) (result : GoMap Text Text)
      → lookup t result ≡ some m
      → lookup u result ≢ some m
      → lookup t (insert u n result) ≡ some m
  vacant u n result found free =
      insert-keeps u n result found
        (λ e. absurd (free (subst (λ x. lookup x result ≡ some m) (sym e) found)))

  shorten-keeps :
      (left i : ℕ) (comps : List Text) (n : Text) (result : GoMap Text Text)
      → lookup t result ≡ some m
      → lookup t (shorten left i comps n result) ≡ some m
  unfolding shorten
  shorten-keeps zero i comps n result found = found
  shorten-keeps (suc left) i comps n result found =
      let u = join dot (drop (length comps - i - 1) comps) in
      elim (Option-cases (lookup u result)) [
        | inl nothing ↦ rw (shorten, nothing) (vacant u n result found (λ e. cc (sym nothing ∙ e)))
        | inr (old, known) ↦ elim (Bool-cases (old == [])) [
          | inl empty ↦
              rw (shorten, known, empty)
                (vacant u n result found
                  (λ e. ground (arith, full, ==_iff old [], empty, known, e)))
          | inr taken ↦ rw (shorten, known, taken) (shorten-keeps left (suc i) comps n result found)
        ]
      ]

  module _ (own : (length (split dot t) == 1) ≡ true → m ≡ t) where
    pub simplify_one-keeps :
        (n : Text) (result : GoMap Text Text)
        → lookup t result ≡ some m
        → lookup t (simplify_one n result) ≡ some m
    unfolding simplify_one
    simplify_one-keeps n result found = elim (Bool-cases (length (split dot n) == 1)) [
      | inl one ↦
          rw (simplify_one, one)
            (insert-keeps n n result found
              (λ e. e ∙ sym (own (subst (λ x. (length (split dot x) == 1) ≡ true) e one))))
      | inr more ↦
          rw (simplify_one, more)
            (shorten-keeps (length (split dot n)) 0 (split dot n) n result found)
    ]

    pub simplify_from-keeps :
        (names : Names) (result : GoMap Text Text)
        → lookup t result ≡ some m
        → lookup t (simplify_from names result) ≡ some m
    unfolding simplify_from
    simplify_from-keeps [] result found = found
    simplify_from-keeps (n ∷ names) result found =
        simplify_from-keeps names (simplify_one n result) (simplify_one-keeps n result found)

pub simplify_from-append :
    (xs ys : Names) (result : GoMap Text Text)
    → simplify_from (xs ++ ys) result ≡ simplify_from ys (simplify_from xs result)
unfolding simplify_from
simplify_from-append [] ys result = refl
simplify_from-append (x ∷ xs) ys result = simplify_from-append xs ys (simplify_one x result)

-- a listed name of one part stands for itself
pub lookup-simplify_from :
    (a : Text)
    → a ≢ []
    → Lacks dot a
    → (xs : Names) (result : GoMap Text Text) → elem a xs ≡ true
    → lookup a (simplify_from xs result) ≡ some a
unfolding simplify_from simplify_one
lookup-simplify_from a full lacks [] result is_in = ground arith
lookup-simplify_from a full lacks (x ∷ xs) result is_in = elim (Bool-cases (x == a)) [
  | inl same ↦
      simplify_from-keeps a a full (λ one. refl) xs (simplify_one x result)
        (subst (λ y. lookup a (simplify_one y result) ≡ some a) (sym ((==_iff x a).0 same))
          (rw (simplify_one, split-Lacks dot a lacks)
            (lookup-insert a a a result ∙ ground (arith, ==_self a))))
  | inr other ↦ lookup-simplify_from a full lacks xs (simplify_one x result) (ground arith)
]
