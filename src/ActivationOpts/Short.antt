-- ===== src/ActivationOpts/Short.antt =====
-- What the short names of `Simplify` stand for.
use kubecrtutils.Prelude.{
  ℕ, zero, suc, ◌-◌, ◌≡◌, refl, ap, sym, ◌∙◌, subst, true, List, [], ◌∷◌, ◌++◌, append_assoc,
  append-nil, some, ◌==◌, elem, length, drop, arith, ==_iff, ==_self, Bool-cases, Option-cases, inl,
  inr, nat_eq,
}
use kubecrtutils.Prelude.Text.{Text, text_eq}
use kubecrtutils.Strings.{split, join}
use kubecrtutils.Strings.Split.{join-split}
use kubecrtutils.Maps.{GoMap, lookup, insert, lookup-insert}
use kubecrtutils.ActivationOpts.{Names, shorten, simplify_one, simplify_from, simplify, dot}

-- a text ends in another one
unfoldable pub EndsIn : Text → Text → Type 0
EndsIn t n = (p : Text) × (p ++ t ≡ n)

EndsIn-self : (t : Text) → EndsIn t t
unfolding EndsIn
EndsIn-self t = ([], refl)

EndsIn-nil : (n : Text) → EndsIn [] n
unfolding EndsIn
EndsIn-nil n = (n, append-nil n)

EndsIn-behind : (c t n : Text) → EndsIn t n → EndsIn t (c ++ n)
unfolding EndsIn
EndsIn-behind c t n (p, e) = (c ++ p, append_assoc c p t ∙ ap (λ x. c ++ x) e)

drop-nil : (k : ℕ) → drop {A = Text} k [] ≡ []
drop-nil zero = refl
drop-nil (suc k) = refl

-- the last parts of a text
EndsIn-join : (sep k : ℕ) (parts : List Text) → EndsIn (join sep (drop k parts)) (join sep parts)
unfolding join
EndsIn-join sep k [] = subst (λ l. EndsIn (join sep l) []) (sym (drop-nil k)) (EndsIn-nil [])
EndsIn-join sep zero (p ∷ parts) = EndsIn-self (join sep (p ∷ parts))
EndsIn-join sep (suc k) (p ∷ []) =
    subst (λ l. EndsIn (join sep l) p) (sym (drop-nil k)) (EndsIn-nil p)
EndsIn-join sep (suc k) (p ∷ q ∷ parts) =
    EndsIn-behind p (join sep (drop k (q ∷ parts))) (sep ∷ join sep (q ∷ parts)) (
      EndsIn-behind (sep ∷ []) (join sep (drop k (q ∷ parts))) (join sep (q ∷ parts))
        (EndsIn-join sep k (q ∷ parts)))

-- the entries of a map are names of a list that end in their keys
unfoldable pub IsShort : Names → GoMap Text Text → Type 0
IsShort set result = (t n : Text) → lookup t result ≡ some n → (elem n set ≡ true) × EndsIn t n

insert-IsShort :
    (set : Names) (t n : Text) (result : GoMap Text Text)
    → elem n set ≡ true
    → EndsIn t n
    → IsShort set result
    → IsShort set (insert t n result)
unfolding IsShort
insert-IsShort set t n result member ends short u m found = elim (Bool-cases (t == u)) [
  | inl same ↦
      let this : n ≡ m = ground (arith, lookup-insert u t n result, same, found) in
      (
        subst (λ x. elem x set ≡ true) this member,
        subst (λ x. EndsIn x m) ((==_iff t u).0 same) (subst (EndsIn t) this ends),
      )
  | inr other ↦ short u m (ground (arith, lookup-insert u t n result, other, found))
]

shorten-IsShort :
    (set : Names) (n : Text) (comps : List Text)
    → elem n set ≡ true
    → join dot comps ≡ n
    → (left i : ℕ) (result : GoMap Text Text) → IsShort set result
    → IsShort set (shorten left i comps n result)
unfolding shorten
shorten-IsShort set n comps member whole zero i result short = short
shorten-IsShort set n comps member whole (suc left) i result short =
    let t = join dot (drop (length comps - i - 1) comps) in
    let ends = subst (EndsIn t) whole (EndsIn-join dot (length comps - i - 1) comps) in
    let free = insert-IsShort set t n result member ends short in
    elim (Option-cases (lookup t result)) [
      | inl nothing ↦ rw (shorten, nothing) free
      | inr (old, found) ↦ elim (Bool-cases (old == [])) [
        | inl empty ↦ rw (shorten, found, empty) free
        | inr taken ↦
            rw (shorten, found, taken)
              (shorten-IsShort set n comps member whole left (suc i) result short)
      ]
    ]

simplify_one-IsShort :
    (set : Names) (n : Text) (result : GoMap Text Text)
    → elem n set ≡ true
    → IsShort set result
    → IsShort set (simplify_one n result)
unfolding simplify_one
simplify_one-IsShort set n result member short = elim (Bool-cases (length (split dot n) == 1)) [
  | inl one ↦ rw (simplify_one, one) (insert-IsShort set n n result member (EndsIn-self n) short)
  | inr more ↦
      rw (simplify_one, more)
        (shorten-IsShort set n (split dot n) member (join-split dot n) (length (split dot n)) 0
          result short)
]

pub simplify_from-IsShort :
    (set names : Names) (result : GoMap Text Text)
    → ((n : Text) → elem n names ≡ true → elem n set ≡ true)
    → IsShort set result
    → IsShort set (simplify_from names result)
unfolding simplify_from
simplify_from-IsShort set [] result inside short = short
simplify_from-IsShort set (n ∷ names) result inside short =
    simplify_from-IsShort set names (simplify_one n result) (λ k h. inside k (ground (arith, h)))
      (simplify_one-IsShort set n result (inside n (ground (arith, ==_self n))) short)

-- What a short name stands for is a name of the list that ends in it.
pub lookup-simplify :
    (set : Names) (t n : Text) → lookup t (simplify set) ≡ some n → (elem n set ≡ true) × EndsIn t n
unfolding simplify IsShort lookup
lookup-simplify set t n found =
    simplify_from-IsShort set set [] (λ k h. h) (λ u m h. absurd (cc h)) t n found
