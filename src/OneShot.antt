-- ===== src/OneShot.antt =====
-- The contract of a buyer that keeps one file for each permanent identity: an abstract machine that
-- leaves its first phase by one attempt and does nothing after it.
use obolos.Prelude.{String, List, [], ◌∷◌, ◌++◌, ◌≡◌, refl, sym, ap, ◌∙◌, subst, ◌⊎◌, inl, inr}

-- What the file says: nothing yet, nothing readable, an attempt without a payment, or the payment.
pub data Phase : Type 0 where
  idle broken reserved : Phase
  committed : String → Phase

pub record Machine (E : Type 0) : Type 0 where
  pub phase : Phase
  pub events : List E

append_nil : {E : Type 0} (xs : List E) → xs ++ [] ≡ xs
append_nil [] = refl
append_nil (x ∷ xs) = ap (λ ys. x ∷ ys) (append_nil xs)

abbrev pub unused : {E : Type 0} → Machine E
unused = record { phase = idle; events = [] }

module _ {E : Type 0} (IsAttempt : Phase → List E → Type 0) where
  -- A call does nothing, or makes the one attempt from the idle phase, the latest event first.
  pub data OneShot (m n : Machine E) : Type 0 where
    stutter : n.phase ≡ m.phase → n.events ≡ m.events → OneShot m n
    attempt :
        (new : List E)
        → m.phase ≡ idle
        → IsAttempt n.phase new
        → n.events ≡ new ++ m.events
        → OneShot m n

  pub data OneShots (m : Machine E) : Machine E → Type 0 where
    start : OneShots m m
    then : {n o : Machine E} → OneShots m n → OneShot n o → OneShots m o

  -- Nothing happened, or one attempt did.
  abbrev pub IsOnce : Machine E → Type 0
  IsOnce m = ((m.phase ≡ idle) × (m.events ≡ [])) ⊎ IsAttempt m.phase m.events

  module _ (leaves : (events : List E) → ¬ (IsAttempt idle events)) where
    OneShot-IsOnce : (m n : Machine E) → OneShot m n → IsOnce m → IsOnce n
    OneShot-IsOnce m n (stutter p e) (inl (idles, none_yet)) = inl (p ∙ idles, e ∙ none_yet)
    OneShot-IsOnce m n (stutter p e) (inr h) =
        inr (subst (λ x. IsAttempt x n.events) (sym p) (subst (λ x. IsAttempt m.phase x) (sym e) h))
    OneShot-IsOnce m n (attempt new idles h e) (inl (_, none_yet)) =
        inr (subst (IsAttempt n.phase) (sym (e ∙ ap (λ x. new ++ x) none_yet ∙ append_nil new)) h)
    OneShot-IsOnce m n (attempt new idles h e) (inr old) =
        absurd (leaves m.events (subst (λ x. IsAttempt x m.events) idles old))

    -- Whatever happens to an unused machine is nothing or one attempt.
    pub OneShots-IsOnce : (n : Machine E) → OneShots unused n → IsOnce n
    OneShots-IsOnce n start = inl (refl, refl)
    OneShots-IsOnce n (then {n = m} r st) = OneShot-IsOnce m n st (OneShots-IsOnce m r)
