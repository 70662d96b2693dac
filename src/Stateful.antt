-- ===== src/Stateful.antt =====
-- Actions that act on a state and may throw: an error keeps the state that was reached.
use obolos.Prelude.{String, Bool, true, false, if◌then◌else◌, Result, ok, err, ◌≡◌, refl}

abbrev pub Stateful : Type 0 → Type 0 → Type 0
Stateful S A = S → S × Result String A

module _ {S A : Type 0} where
  abbrev pub lift : Result String A → Stateful S A
  lift r s = (s, r)

module _ {S A B : Type 0} where
  abbrev pub then_run : S × Result String A → (A → Stateful S B) → S × Result String B
  then_run (s, ok a) next = next a s
  then_run (s, err e) next = (s, err e)

  infixl 5 ◌>>=◌
  abbrev pub ◌>>=◌ : Stateful S A → (A → Stateful S B) → Stateful S B
  ◌>>=◌ first next s = then_run (first s) next

  -- A value came out of an action: its first step gave one, and so did the rest.
  pub then_run-ok :
      (r : S × Result String A) (next : A → Stateful S B) {b : B}
      → (then_run r next).1 ≡ ok b
      → (s : S) × (a : A) × (r.1 ≡ ok a) × ((next a s).1 ≡ ok b)
  then_run-ok (s, ok a) next e = (s, a, refl, e)
  then_run-ok (s, err x) next e = cc

infixl 5 ◌>>◌
abbrev pub ◌>>◌ : {S B : Type 0} → Stateful S (Unit {0}) → Stateful S B → Stateful S B
first >> rest = first >>= λ done. rest

-- What holds where an action ends: `P` of the state behind an error, `Q` of a value and its state.
module _ {S : Type 0} (P : S → Type 0) where
  abbrev pub Ends : {A : Type 0} → (A → S → Type 0) → S × Result String A → Type 0
  Ends Q (s, ok a) = Q a s
  Ends Q (s, err e) = P s

  pub Ends-then :
      {A B : Type 0} (R : A → S → Type 0) (Q : B → S → Type 0) (run : S × Result String A)
      (next : A → Stateful S B)
      → Ends R run
      → ((a : A) (s : S) → R a s → Ends Q (next a s))
      → Ends Q (then_run run next)
  Ends-then R Q (s, ok a) next h rest = rest a s h
  Ends-then R Q (s, err e) next h rest = h

  -- An action that cannot change the state.
  pub Ends-lift :
      {A B : Type 0} (Q : B → S → Type 0) (r : Result String A) (next : A → Stateful S B) (s : S)
      → P s
      → ((a : A) → r ≡ ok a → Ends Q (next a s))
      → Ends Q (then_run (s, r) next)
  Ends-lift Q (ok a) next s p rest = rest a refl
  Ends-lift Q (err e) next s p rest = p

  pub Ends-if :
      {A : Type 0} (Q : A → S → Type 0) (b : Bool) (first other : Stateful S A) (s : S)
      → (b ≡ true → Ends Q (first s))
      → (b ≡ false → Ends Q (other s))
      → Ends Q ((if b then first else other) s)
  Ends-if Q true first other s f o = f refl
  Ends-if Q false first other s f o = o refl

pub Ends-map :
    {S A : Type 0} (P O : S → Type 0) (Q R : A → S → Type 0) (run : S × Result String A)
    → ((s : S) → P s → O s)
    → ((a : A) (s : S) → Q a s → R a s)
    → Ends P Q run
    → Ends O R run
Ends-map P O Q R (s, ok a) f g h = g a s h
Ends-map P O Q R (s, err e) f g h = f s h

pub Ends-state :
    {S A : Type 0} (P : S → Type 0) (Q : A → S → Type 0) (run : S × Result String A)
    → ((a : A) (s : S) → Q a s → P s)
    → Ends P Q run
    → P run.0
Ends-state P Q (s, ok a) f h = f a s h
Ends-state P Q (s, err e) f h = h
