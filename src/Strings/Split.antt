-- ===== src/Strings/Split.antt =====
-- Splitting and joining.
use kubecrtutils.Prelude.{
  ℕ, ◌≡◌, ◌≢◌, refl, false, List, [], ◌∷◌, ◌++◌, arith, All, ap, elem, ◌==◌, ==_iff, nat_eq,
  append_assoc, ◌∙◌, Bool-cases, inl, inr, sym,
}
use kubecrtutils.Prelude.Text.{Text}
use kubecrtutils.Strings.{prepend, split, join, Lacks}

pub split-Lacks : (sep : ℕ) (p : Text) → Lacks sep p → split sep p ≡ p ∷ []
unfolding split
split-Lacks sep [] h = refl
split-Lacks sep (c ∷ p) (ne, h) = ground (arith, split-Lacks sep p h, ==_iff c sep)

pub split-ne-nil : (sep : ℕ) (s : Text) → split sep s ≢ []
unfolding split
split-ne-nil sep [] h = cc h
split-ne-nil sep (c ∷ s) h = ground (arith, split-ne-nil sep s)

prepend-append : (c : ℕ) (l m : List Text) → l ≢ [] → prepend c (l ++ m) ≡ prepend c l ++ m
prepend-append c [] m h = absurd (h refl)
prepend-append c (p ∷ l) m h = refl

pub split-append : (sep : ℕ) (p s : Text) → split sep (p ++ (sep ∷ s)) ≡ split sep p ++ split sep s
unfolding split
split-append sep [] s = ground (arith, ==_iff sep sep)
split-append sep (c ∷ p) s = elim (Bool-cases (c == sep)) [
  | inl same ↦ rw same (ap (λ (l : List Text). [] ∷ l) (split-append sep p s))
  | inr other ↦ rw other (
      ap (prepend c) (split-append sep p s)
      ∙ prepend-append c (split sep p) (split sep s) (split-ne-nil sep p))
]

pub split-join :
    (sep : ℕ) (p : Text) (ps : List Text)
    → All (Lacks sep) (p ∷ ps)
    → split sep (join sep (p ∷ ps)) ≡ p ∷ ps
unfolding join
split-join sep p [] (h, hs) = split-Lacks sep p h
split-join sep p (q ∷ ps) (h, hs) =
    rw (split-append sep p (join sep (q ∷ ps)), split-Lacks sep p h, split-join sep q ps hs)

pub join-cons :
    (sep : ℕ) (p : Text) (ps : List Text) → ps ≢ [] → join sep (p ∷ ps) ≡ p ++ (sep ∷ join sep ps)
unfolding join
join-cons sep p [] h = absurd (h refl)
join-cons sep p (q ∷ ps) h = refl

pub join-append :
    (sep : ℕ) (p : Text) (ps : List Text) (q : Text) (qs : List Text)
    → join sep ((p ∷ ps) ++ (q ∷ qs)) ≡ join sep (p ∷ ps) ++ (sep ∷ join sep (q ∷ qs))
unfolding join
join-append sep p [] q qs = refl
join-append sep p (r ∷ ps) q qs =
    rw (join-append sep r ps q qs)
      (sym (append_assoc p (sep ∷ join sep (r ∷ ps)) (sep ∷ join sep (q ∷ qs))))

join-prepend : (sep c : ℕ) (l : List Text) → l ≢ [] → join sep (prepend c l) ≡ c ∷ join sep l
unfolding join
join-prepend sep c [] h = absurd (h refl)
join-prepend sep c (p ∷ []) h = refl
join-prepend sep c (p ∷ q ∷ l) h = refl

pub join-split : (sep : ℕ) (s : Text) → join sep (split sep s) ≡ s
unfolding split
join-split sep [] = unfold join in refl
join-split sep (c ∷ s) = elim (Bool-cases (c == sep)) [
  | inl same ↦ rw same (
      join-cons sep [] (split sep s) (split-ne-nil sep s)
      ∙ ground (arith, join-split sep s, ==_iff c sep))
  | inr other ↦ rw other (
      join-prepend sep c (split sep s) (split-ne-nil sep s)
      ∙ ap (λ (t : Text). c ∷ t) (join-split sep s))
]

-- joined fields behind any text split into the parts of that text and the fields
pub split-join_behind :
    (sep : ℕ) (s p : Text) (ps : List Text)
    → All (Lacks sep) (p ∷ ps)
    → split sep (join sep (s ∷ p ∷ ps)) ≡ split sep s ++ (p ∷ ps)
split-join_behind sep s p ps h =
    ap (split sep) (join-cons sep s (p ∷ ps) (λ e. cc e))
    ∙ (split-append sep s (join sep (p ∷ ps))
        ∙ ap (λ (l : List Text). split sep s ++ l) (split-join sep p ps h))

pub elem-Lacks : (sep : ℕ) (s : Text) → elem sep s ≡ false → Lacks sep s
elem-Lacks sep [] h = tt
elem-Lacks sep (c ∷ s) h = (λ e. ground (arith, ==_iff c sep), elem-Lacks sep s (ground arith))
