-- ===== src/ActivationOpts/Hidden.antt =====
-- Which listed names `Simplify` gives away to longer ones.
use kubecrtutils.Prelude.{
  suc, ◌-◌, ◌≡◌, ◌≢◌, refl, ap, sym, ◌∙◌, subst, true, false, List, [], ◌∷◌, ◌++◌, none, some, ◌==◌,
  elem, length, length-append, drop, arith, ==_self, Option-cases, inl, inr, nat_eq,
}
use kubecrtutils.Prelude.Text.{Text, text_eq}
use kubecrtutils.Strings.{split, join, Lacks}
use kubecrtutils.Strings.Split.{split-join, split-join_behind, split-ne-nil}
use kubecrtutils.Maps.{GoMap, lookup, insert, lookup-insert}
use kubecrtutils.ActivationOpts.{Names, simplify_one, simplify_from, simplify, dot}
use kubecrtutils.ActivationOpts.Short.{EndsIn, IsShort, simplify_from-IsShort}
use kubecrtutils.ActivationOpts.Stays.{
  shorten-free, shorten-taken, simplify_one-keeps, simplify_from-keeps, simplify_from-append,
  lookup-simplify_from,
}

drop-append : (p q : List Text) → drop (length p) (p ++ q) ≡ q
drop-append [] q = refl
drop-append (x ∷ p) q = drop-append p q

drop-append_suc :
    (p : List Text) (b : Text) (q : List Text) → drop (suc (length p)) (p ++ (b ∷ q)) ≡ q
drop-append_suc [] b q = refl
drop-append_suc (x ∷ p) b q = drop-append_suc p b q

append-nil_right : (p q : Text) → p ++ q ≡ [] → q ≡ []
append-nil_right [] q h = h
append-nil_right (x ∷ p) q h = absurd (cc h)

length-zero : (p : List Text) → length p ≡ 0 → p ≡ []
length-zero [] h = refl
length-zero (x ∷ p) h = absurd (omega (arith, h))

-- `short` has two parts, of which `a` is the last, and `long` has more before these
module _ (a b s : Text) (full : a ≢ []) (la : Lacks dot a) (lb : Lacks dot b) where
  short : Text
  short = join dot (b ∷ a ∷ [])

  long : Text
  long = join dot (s ∷ b ∷ a ∷ [])

  split-short : split dot short ≡ b ∷ a ∷ []
  unfolding short
  split-short = split-join dot b (a ∷ []) (lb, (la, tt))

  split-long : split dot long ≡ split dot s ++ (b ∷ a ∷ [])
  unfolding long
  split-long = split-join_behind dot s b (a ∷ []) (lb, (la, tt))

  length-parts : length (split dot s ++ (b ∷ a ∷ [])) ≡ suc (suc (length (split dot s)))
  length-parts = length-append (split dot s) (b ∷ a ∷ []) ∙ omega arith

  short-full : short ≢ []
  unfolding split
  short-full e = let parts : [] ∷ [] ≡ b ∷ a ∷ [] = sym (ap (split dot) e) ∙ split-short in cc parts

  long-full : long ≢ []
  unfolding split
  long-full e =
      let parts : [] ∷ [] ≡ split dot s ++ (b ∷ a ∷ []) = sym (ap (split dot) e) ∙ split-long in
      let size : 1 ≡ suc (suc (length (split dot s))) = ap length parts ∙ length-parts in
      omega (arith, size)

  long-short : long ≢ short
  long-short e =
      let parts : split dot s ++ (b ∷ a ∷ []) ≡ b ∷ a ∷ [] =
        sym split-long ∙ (ap (split dot) e ∙ split-short) in
      let size : suc (suc (length (split dot s))) ≡ 2 = sym length-parts ∙ ap length parts in
      split-ne-nil dot s (length-zero (split dot s) (omega (arith, size)))

  not_one : (length (split dot short) == 1) ≡ false
  not_one = rw split-short refl

  -- in front of it `a` stands for itself, and the short text for nothing
  simplify_one-long :
      (result : GoMap Text Text)
      → lookup a result ≡ some a
      → lookup short result ≡ none
      → simplify_one long result ≡ insert short long result
  unfolding simplify_one short join
  simplify_one-long result known free =
      let parts = split dot s ++ (b ∷ a ∷ []) in
      let at_last : length parts - 0 - 1 ≡ suc (length (split dot s)) =
        omega (arith, length-parts) in
      let at_both : length parts - 1 - 1 ≡ length (split dot s) = omega (arith, length-parts) in
      let last : drop (length parts - 0 - 1) parts ≡ a ∷ [] =
        ap (λ k. drop k parts) at_last ∙ drop-append_suc (split dot s) b (a ∷ []) in
      let both : drop (length parts - 1 - 1) parts ≡ b ∷ a ∷ [] =
        ap (λ k. drop k parts) at_both ∙ drop-append (split dot s) (b ∷ a ∷ []) in
      let several : (suc (suc (length (split dot s))) == 1) ≡ false = ground arith in
      rw (simplify_one, split-long, length-parts, several)
        (shorten-taken (suc (length (split dot s))) 0 parts long a result (ap (join dot) last) a
            known full
          ∙ shorten-free (length (split dot s)) 1 parts long short result (ap (join dot) both) free)

  EndsIn-full : (m : Text) → EndsIn short m → m ≢ []
  unfolding EndsIn
  EndsIn-full m (p, e) empty = short-full (append-nil_right p short (e ∙ empty))

  -- what the short text stands for behind the long one
  simplify_one-hides :
      (xs : Names)
      → elem a xs ≡ true
      → elem short xs ≡ false
      → (m : Text) × (lookup short (simplify_one long (simplify_from xs [])) ≡ some m)
        × (m ≢ [])
        × (m ≢ short)
  unfolding IsShort lookup
  simplify_one-hides xs known unlisted =
      let result = simplify_from xs [] in
      elim (Option-cases (lookup short result)) [
        | inl free ↦ (
          long,
          ap (lookup short)
                (simplify_one-long result (lookup-simplify_from a full la xs [] known) free)
              ∙ (lookup-insert short short long result ∙ ground (arith, ==_self short)),
          long-full,
          long-short,
        )
        | inr (m, found) ↦
            let (member, ends) =
              simplify_from-IsShort xs xs [] (λ k h. h) (λ u n h. absurd (cc h)) short m found in
            (
              m,
              simplify_one-keeps short m (EndsIn-full m ends)
                  (λ one. absurd (cc (sym not_one ∙ one))) long result found,
              EndsIn-full m ends,
              λ e. cc (sym unlisted ∙ subst (λ x. elem x xs ≡ true) e member),
            )
      ]

-- A name of two parts does not stand for itself, but for another name, when the name of its last part stands in
-- front, and behind that a longer name that ends in it behind a dot, with the name itself not in
-- front of the longer one. (The two parts hold no dot and the last one is not empty.)
pub simplify_hides :
    (a b s : Text) (xs ys : Names)
    → a ≢ []
    → Lacks dot a
    → Lacks dot b
    → elem a xs ≡ true
    → elem (join dot (b ∷ a ∷ [])) xs ≡ false
    → (m : Text) × (lookup
          (join dot (b ∷ a ∷ []))
          (simplify (xs ++ (join dot (s ∷ b ∷ a ∷ []) ∷ ys)))
        ≡ some m)
      × (m ≢ join dot (b ∷ a ∷ []))
unfolding simplify simplify_from short long
simplify_hides a b s xs ys full la lb known unlisted =
    let (m, found, filled, other) = simplify_one-hides a b s full la lb xs known unlisted in
    (
      m,
      ap (lookup (short a b s full la lb)) (simplify_from-append xs (long a b s full la lb ∷ ys) [])
          ∙ simplify_from-keeps (short a b s full la lb) m filled
              (λ one. absurd (cc (sym (not_one a b s full la lb) ∙ one))) ys
              (simplify_one (long a b s full la lb) (simplify_from xs [])) found,
      other,
    )
