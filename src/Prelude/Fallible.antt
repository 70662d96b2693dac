-- ===== src/Prelude/Fallible.antt =====
-- Functions that may throw: a result is a value or the error that was thrown.
use mathlib.Core.Path.{◌≡◌, refl}
use mathlib.Core.Bool.{Bool, true, false}
use mathlib.Core.Logic.{◌⊎◌, inl, inr}
use mathlib.Core.Option.{Option, none, some}

pub data Result {ℓ} (E A : Type ℓ) : Type ℓ where
  ok : A → Result E A
  err : E → Result E A

-- `if (bad) throw e;`
abbrev pub throw_if : {E : Type 0} → Bool → E → Result E (Unit {0})
throw_if true e = err e
throw_if false e = ok tt

-- The value of an option, or the error.
abbrev pub or_throw : {E A : Type 0} → E → Option A → Result E A
or_throw e none = err e
or_throw e (some a) = ok a

module _ {ℓ} {E A B : Type ℓ} where
  infixl 5 ◌>>=◌
  abbrev pub ◌>>=◌ : Result E A → (A → Result E B) → Result E B
  err thrown >>= next = err thrown
  ok value >>= next = next value

-- A value came out of a chain: its first action returned, and so did the rest.
pub >>=-ok {ℓ} :
    {E A B : Type ℓ} (first : Result E A) (next : A → Result E B) {result : B}
    → (first >>= next) ≡ ok result
    → (value : A) × (first ≡ ok value) × (next value ≡ ok result)
>>=-ok (ok value) next returned = (value, refl, returned)
>>=-ok (err thrown) next returned = cc

pub throw_if-ok : {E : Type 0} (b : Bool) (e : E) {u : Unit {0}} → throw_if b e ≡ ok u → b ≡ false
throw_if-ok true e h = cc
throw_if-ok false e h = refl

pub or_throw-ok : {E A : Type 0} (e : E) (o : Option A) {a : A} → or_throw e o ≡ ok a → o ≡ some a
or_throw-ok e none h = cc
or_throw-ok e (some b) h = cc

pub ok_injective : {E A : Type 0} (a b : A) → ◌≡◌ {A = Result E A} (ok a) (ok b) → a ≡ b
ok_injective a b e = cc

pub Result-cases {ℓ} :
    {E A : Type ℓ} (r : Result E A) → ((a : A) × (r ≡ ok a)) ⊎ ((e : E) × (r ≡ err e))
Result-cases (ok a) = inl (a, refl)
Result-cases (err e) = inr (e, refl)

-- A statement before the others.
infixl 5 ◌>>◌
abbrev pub ◌>>◌ : {E B : Type 0} (first : Result E (Unit {0})) (rest : Result E B) → Result E B
first >> rest = first >>= λ done. rest
