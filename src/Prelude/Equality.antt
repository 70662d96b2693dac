-- ===== src/Prelude/Equality.antt =====
-- `===` as an interface: one operator for numbers, texts and the program's own data.
use Prim.Native.Nat.{ℕ}
use Prim.Native.String.{String}
use mathlib.Core.Path.{◌≡◌, refl}
use mathlib.Core.Logic.{◌↔◌, inl, inr}
use mathlib.Core.Bool.{Bool, true, false}
use native.Mathlib.Omega.{arith}
use text.Mathlib.Text.{◌==◌ as str_eq}
use text.Mathlib.TextEquality.{eq_iff}
use obolos.Prelude.Tests.{nat_beq, nat_beq_iff, Bool-cases}

pub record Eq {ℓ} (A : Type ℓ) : Type ℓ where
  pub same : A → A → Bool
  pub same_iff : (a b : A) → (same a b ≡ true) ↔ (a ≡ b)

infix 50 ◌==◌
abbrev pub ◌==◌ {ℓ} : {A : Type ℓ} ⦃e : Eq A⦄ → A → A → Bool
◌==◌ ⦃e⦄ = e.same

pub str_ne : (a b : String) → str_eq a b ≡ false → ¬ (a ≡ b)
str_ne a b other e = ground (arith, eq_iff a b)

unfoldable pub string_discrete : Discrete String
unfolding Bool-cases
string_discrete a b = elim (Bool-cases (str_eq a b)) [
  | inl same ↦ yes ((eq_iff a b).0 same)
  | inr other ↦ no (str_ne a b other)
]

-- Equality of a type whose equality is decided.
module _ {ℓ} {A : Type ℓ} (dec : Discrete A) where
  abbrev pub dec_beq : A → A → Bool
  dec_beq a b = elim (dec a b) [ yes _ ↦ true | no _ ↦ false ]

  pub dec_beq_iff : (a b : A) → (dec_beq a b ≡ true) ↔ (a ≡ b)
  dec_beq_iff a b =
      elim (dec a b)
        as (λ d. (elim d as (λ _. Bool) [ yes _ ↦ true | no _ ↦ false ] ≡ true) ↔ (a ≡ b)) [
          | yes p ↦ (λ _. p, λ _. refl)
          | no n ↦ (λ e. cc, λ p. absurd (n p))
        ]

abbrev pub discrete_eq {ℓ} : {A : Type ℓ} → Discrete A → Eq A
discrete_eq dec = record { same = dec_beq dec; same_iff = dec_beq_iff dec }

instance abbrev pub nat_eq : Eq ℕ
nat_eq = record { same = nat_beq; same_iff = nat_beq_iff }

instance abbrev pub string_eq : Eq String
string_eq = record { same = str_eq; same_iff = eq_iff }
