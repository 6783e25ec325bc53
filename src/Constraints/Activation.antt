-- ===== src/Constraints/Activation.antt =====
-- controller/constraints/types/activation.go: the three activation states and their matrices.
-- `Yes`, `No` and `NoOpinion` are the Go values 1, -1 and 0.
use kubecrtutils.Prelude.{ℕ, zero, suc, ◌≡◌, refl, List, [], ◌∷◌, arith}

pub data Activation : Type 0 where
  said_yes said_no no_opinion : Activation

abbrev pub Matrix : Type 0
Matrix = List (List Activation)

-- `a + 1`
position : Activation → ℕ
position said_no = 0
position no_opinion = 1
position said_yes = 2

-- `row[i]`; every index used here is below 3
pick : List Activation → ℕ → Activation
pick [] i = no_opinion
pick (a ∷ row) zero = a
pick (a ∷ row) (suc i) = pick row i

-- `matrix[i][j]`
cell : Matrix → ℕ → ℕ → Activation
unfolding pick
cell [] i j = no_opinion
cell (row ∷ rows) zero j = pick row j
cell (row ∷ rows) (suc i) j = cell rows i j

abbrev or_matrix : Matrix
or_matrix =
    (said_no ∷ said_no ∷ said_yes ∷ [])
    ∷ (said_no ∷ no_opinion ∷ said_yes ∷ [])
    ∷ (said_yes ∷ said_yes ∷ said_yes ∷ [])
    ∷ []

abbrev and_matrix : Matrix
and_matrix =
    (said_no ∷ said_no ∷ said_no ∷ [])
    ∷ (said_no ∷ no_opinion ∷ said_yes ∷ [])
    ∷ (said_no ∷ said_yes ∷ said_yes ∷ [])
    ∷ []

unfoldable pub or : Activation → Activation → Activation
unfolding cell position
or a b = cell or_matrix (position a) (position b)

unfoldable pub and : Activation → Activation → Activation
unfolding cell position
and a b = cell and_matrix (position a) (position b)

-- `-a`
unfoldable pub not : Activation → Activation
not said_yes = said_no
not said_no = said_yes
not no_opinion = no_opinion

pub and_assoc : (a b c : Activation) → and (and a b) c ≡ and a (and b c)
unfolding and
and_assoc said_yes said_yes said_yes = refl
and_assoc a b c = ground arith

pub and-no_left : (a : Activation) → and said_no a ≡ said_no
unfolding and
and-no_left a = ground arith

pub and-no_opinion : (a : Activation) → and no_opinion a ≡ a
unfolding and
and-no_opinion a = ground arith

pub not-and : (a b : Activation) → not (and a b) ≡ or (not a) (not b)
unfolding not and or
not-and a b = ground arith

pub or_assoc : (a b c : Activation) → or (or a b) c ≡ or a (or b c)
unfolding or
or_assoc a b c = ground arith

pub or-no_opinion : (a : Activation) → or no_opinion a ≡ a
unfolding or
or-no_opinion a = ground arith

-- The matrices are commutative and associative, `NoOpinion` is the unit of both, `No` absorbs
-- under `And`, `Yes` under `Or`, and `Not` exchanges the two and is its own inverse.
pub activation_laws :
    (a b c : Activation)
    → (and a b ≡ and b a)
      × (and (and a b) c ≡ and a (and b c))
      × (and no_opinion a ≡ a)
      × (and said_no a ≡ said_no)
      × (or a b ≡ or b a)
      × (or (or a b) c ≡ or a (or b c))
      × (or no_opinion a ≡ a)
      × (or said_yes a ≡ said_yes)
      × (not (and a b) ≡ or (not a) (not b))
      × (not (not a) ≡ a)
unfolding and or not
activation_laws a b c = (
  ground arith,
  and_assoc a b c,
  and-no_opinion a,
  and-no_left a,
  ground arith,
  or_assoc a b c,
  or-no_opinion a,
  ground arith,
  not-and a b,
  ground arith,
)
