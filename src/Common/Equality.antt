-- ===== src/Common/Equality.antt =====
-- `PartialEq` as the source derives it for its enums, and `contains` of a vector.
use mathlib.Core.Path.{◌≡◌, refl}
use mathlib.Core.Logic.{◌↔◌}
use mathlib.Core.Bool.{Bool, true, false, ◌||◌}
use mathlib.Core.List.{List, [], ◌∷◌}
use native.Mathlib.Omega.{arith}

pub record Eq {ℓ} (A : Type ℓ) : Type ℓ where
  pub beq : A → A → Bool
  pub beq_iff : (x y : A) → (beq x y ≡ true) ↔ (x ≡ y)

abbrev pub test {ℓ} : {P : Type ℓ} → Dec P → Bool
test (yes _) = true
test (no _) = false

pub test_iff {ℓ} : {P : Type ℓ} (d : Dec P) → (test d ≡ true) ↔ P
test_iff (yes p) = (λ _. p, λ _. refl)
test_iff (no n) = (λ e. absurd (cc), λ p. absurd (n p))

-- The equality that `derive(PartialEq)` makes is the decision of `≡`.
abbrev pub derive_eq {ℓ} : {A : Type ℓ} → Discrete A → Eq A
derive_eq d = record { beq = λ a b. test (d a b); beq_iff = λ a b. test_iff (d a b) }

infix 50 ◌==◌
abbrev pub ◌==◌ {ℓ} : {A : Type ℓ} ⦃e : Eq A⦄ → A → A → Bool
◌==◌ ⦃e⦄ = e.beq

module _ {ℓ} {A : Type ℓ} ⦃e : Eq A⦄ where
  -- `contains` of a slice
  abbrev pub contains : List A → A → Bool
  contains [] a = false
  contains (x ∷ xs) a = (x == a) || contains xs a

  pub contains-cons_self : (a : A) (xs : List A) → contains (a ∷ xs) a ≡ true
  contains-cons_self a xs = ground (arith, e.beq_iff a a)
