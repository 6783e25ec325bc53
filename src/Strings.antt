-- ===== src/Strings.antt =====
-- The functions of Go's `strings` that the program uses, on one-byte separators.
pub mod Split
use kubecrtutils.Prelude.{
  ℕ, zero, suc, ◌≡◌, ◌≢◌, Bool, true, false, ◌&&◌, ◌||◌, List, [], ◌∷◌, ◌++◌, Option, none, some,
  if◌then◌else◌, ◌==◌, nat_eq,
}
use kubecrtutils.Prelude.Text.{Text}

-- the first part gets one more byte
abbrev pub prepend : ℕ → List Text → List Text
prepend c [] = (c ∷ []) ∷ []
prepend c (p ∷ ps) = (c ∷ p) ∷ ps

-- `strings.Split(s, sep)`
unfoldable pub split : ℕ → Text → List Text
split sep [] = [] ∷ []
split sep (c ∷ s) = let rest = split sep s in if c == sep then [] ∷ rest else prepend c rest

-- `strings.Join(parts, sep)`
unfoldable pub join : ℕ → List Text → Text
join sep [] = []
join sep (p ∷ []) = p
join sep (p ∷ q ∷ ps) = p ++ (sep ∷ join sep (q ∷ ps))

-- the text does not hold the byte
abbrev pub Lacks : ℕ → Text → Type 0
Lacks sep [] = Unit
Lacks sep (c ∷ s) = (c ≢ sep) × Lacks sep s

-- `strings.Index(s, sep)`, as the parts before and behind the first separator
unfoldable pub cut : ℕ → Text → Option (Text × Text)
cut sep [] = none
cut sep (c ∷ s) =
    let rest = cut sep s in
    if c == sep then some ([], s) else elim rest [ none ↦ none | some (a, b) ↦ some (c ∷ a, b) ]

-- `strings.HasPrefix(s, p)` for a prefix of one byte
unfoldable pub starts_with : ℕ → Text → Bool
starts_with c [] = false
starts_with c (d ∷ s) = d == c

-- `strings.TrimLeft(s, cutset)`, for a cutset of two bytes
unfoldable pub trim_left : ℕ → ℕ → Text → Text
trim_left a b [] = []
trim_left a b (c ∷ s) = let rest = trim_left a b s in if c == a || c == b then rest else c ∷ s
