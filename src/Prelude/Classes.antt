-- ===== src/Prelude/Classes.antt =====
-- Equality tests as an interface, with its instances.
use Prim.Native.Nat.{ℕ}
use Prim.Native.String.{String}
use mathlib.Core.Path.{◌≡◌, refl}
use mathlib.Core.Logic.{◌↔◌, ite, if_pos, if_neg}
use mathlib.Core.Bool.{Bool, true, false, ◌&&◌}
use mathlib.Core.List.{List, [], ◌∷◌}
use native.Mathlib.Omega.{arith}
use text.Mathlib.Text.{◌==◌ as str_eq}
use text.Mathlib.TextEquality.{eq_iff}
use mimo26f_afd.Prelude.Tests.{◌==◌ as nat_eq, ==_iff as nat_eq_iff}

pub record Eq {ℓ} (A : Type ℓ) : Type ℓ where
  pub beq : A → A → Bool
  pub beq_iff : (a b : A) → (beq a b ≡ true) ↔ (a ≡ b)

infix 50 ◌≐◌
abbrev pub ◌≐◌ {ℓ} : {A : Type ℓ} ⦃e : Eq A⦄ → A → A → Bool
◌≐◌ ⦃e⦄ = e.beq

instance abbrev pub ℕ_eq : Eq ℕ
ℕ_eq = record { beq = nat_eq; beq_iff = nat_eq_iff }

instance abbrev pub String_eq : Eq String
String_eq = record { beq = str_eq; beq_iff = eq_iff }

-- Equality of lists of numbers, entry by entry.
abbrev pub list_beq : List ℕ → List ℕ → Bool
list_beq [] [] = true
list_beq [] (y ∷ ys) = false
list_beq (x ∷ xs) [] = false
list_beq (x ∷ xs) (y ∷ ys) = nat_eq x y && list_beq xs ys

pub list_beq_iff : (xs ys : List ℕ) → (list_beq xs ys ≡ true) ↔ (xs ≡ ys)
list_beq_iff [] [] = ground arith
list_beq_iff [] (y ∷ ys) = ground arith
list_beq_iff (x ∷ xs) [] = ground arith
list_beq_iff (x ∷ xs) (y ∷ ys) = ground (arith, list_beq_iff xs ys)

instance abbrev pub List_eq : Eq (List ℕ)
List_eq = record { beq = list_beq; beq_iff = list_beq_iff }

-- Equality from a decision.
abbrev pub decided {ℓ} : {A : Type ℓ} → Discrete A → A → A → Bool
decided d a b = ite (d a b) true false

pub decided_iff {ℓ} : {A : Type ℓ} (d : Discrete A) (a b : A) → (decided d a b ≡ true) ↔ (a ≡ b)
decided_iff d a b = elim (d a b) [
  | yes p ↦ rw (if_pos _ p) (λ h. p, λ h. refl)
  | no p ↦ rw (if_neg _ p) (λ h. cc, λ h. absurd (p h))
]
