-- ===== src/Prelude/Class.antt =====
-- Decidable equality as an instance argument: the `==` of Go on strings and comparable structs.
use mathlib.Core.Path.{◌≡◌, refl}
use mathlib.Core.Logic.{◌↔◌}
use mathlib.Core.Bool.{Bool, true, false, ◌&&◌}
use mathlib.Core.List.{List, [], ◌∷◌}
use Prim.Native.Nat.{ℕ}
use native.Mathlib.Omega.{arith}
use kubecrtutils.Prelude.Tests.{nat_beq, nat_beq_iff}

pub record Eq {ℓ} (T : Type ℓ) : Type ℓ where
  pub equals : T → T → Bool
  pub equals_iff : (x y : T) → (equals x y ≡ true) ↔ (x ≡ y)

infix 50 ◌==◌
abbrev pub ◌==◌ {ℓ} : {A : Type ℓ} ⦃e : Eq A⦄ → A → A → Bool
◌==◌ ⦃e⦄ x y = e.equals x y

pub ==_iff {ℓ} : {A : Type ℓ} ⦃e : Eq A⦄ (a b : A) → ((a == b) ≡ true) ↔ (a ≡ b)
==_iff ⦃e⦄ a b = e.equals_iff a b

pub ==_self {ℓ} : {A : Type ℓ} ⦃e : Eq A⦄ (a : A) → (a == a) ≡ true
==_self a = (==_iff a a).1 refl

instance abbrev pub nat_eq : Eq ℕ
nat_eq = record { equals = nat_beq; equals_iff = nat_beq_iff }

abbrev pub list_beq {ℓ} : {A : Type ℓ} ⦃e : Eq A⦄ → List A → List A → Bool
list_beq [] [] = true
list_beq (x ∷ xs) (y ∷ ys) = (x == y) && list_beq xs ys
list_beq _ _ = false

pub list_beq_iff {ℓ} :
    {A : Type ℓ} ⦃e : Eq A⦄ (xs ys : List A) → (list_beq xs ys ≡ true) ↔ (xs ≡ ys)
list_beq_iff [] [] = (λ _. refl, λ _. refl)
list_beq_iff [] (y ∷ ys) = ground arith
list_beq_iff (x ∷ xs) [] = ground arith
list_beq_iff (x ∷ xs) (y ∷ ys) = ground (arith, ==_iff x y, list_beq_iff xs ys)

instance abbrev pub list_eq {ℓ} : {A : Type ℓ} ⦃e : Eq A⦄ → Eq (List A)
list_eq = record { equals = list_beq; equals_iff = list_beq_iff }

abbrev pub pair_beq {ℓ κ} : {A : Type ℓ} {B : Type κ} ⦃d : Eq A⦄ ⦃e : Eq B⦄ → A × B → A × B → Bool
pair_beq (a, b) (c, d) = (a == c) && (b == d)

pub pair_beq_iff {ℓ κ} :
    {A : Type ℓ} {B : Type κ} ⦃d : Eq A⦄ ⦃e : Eq B⦄ (p q : A × B) → (pair_beq p q ≡ true) ↔ (p ≡ q)
pair_beq_iff (a, b) (c, d) = ground (arith, ==_iff a c, ==_iff b d)

instance abbrev pub pair_eq {ℓ κ} : {A : Type ℓ} {B : Type κ} ⦃d : Eq A⦄ ⦃e : Eq B⦄ → Eq (A × B)
pair_eq = record { equals = pair_beq; equals_iff = pair_beq_iff }
