-- ===== src/Engine/Cheapest.antt =====
-- The planner's choice: the cheapest provider whose quote is within the mandate.
use obolos.Prelude.{◌≤◌, ◌≡◌, Bool, true, false, inl, inr, Option, none, some}
use obolos.Prelude.{
  List, [], ◌∷◌, All, keep, find, includes, arith, Bool-cases, length, leb, string_eq,
}
use obolos.Contracts.{Run, Provider}
use obolos.Policy.Quotes.{approved_iff, IsWithinMandate}
use obolos.Engine.{Env}
use obolos.Engine.Choose.{insert_by_price, sort_by_price, eligible_providers, is_approved_for}
use obolos.Engine.Pay.{approved_provider}

module _ (P : Provider → Type 0) where
  All-insert_inv :
      (p : Provider) (ps : List Provider) → All P (insert_by_price p ps) → P p × All P ps
  All-insert_inv p [] h = h
  All-insert_inv p (q ∷ qs) h = elim (Bool-cases (leb p.unit_price_atomic q.unit_price_atomic)) [
    | inl le ↦ rw le at h
    | inr gt ↦
        let (hq, rest) = rw gt at h in let (hp, hqs) = All-insert_inv p qs rest in (hp, (hq, hqs))
  ]

  All-insert : (p : Provider) (ps : List Provider) → P p → All P ps → All P (insert_by_price p ps)
  All-insert p [] hp h = (hp, tt)
  All-insert p (q ∷ qs) hp h = elim (Bool-cases (leb p.unit_price_atomic q.unit_price_atomic)) [
    | inl le ↦ rw le (hp, h)
    | inr gt ↦ rw gt (h.0, All-insert p qs hp h.1)
  ]

  All-sort_inv : (ps : List Provider) → All P (sort_by_price ps) → All P ps
  All-sort_inv [] h = tt
  All-sort_inv (p ∷ ps) h =
      let (hp, rest) = All-insert_inv p (sort_by_price ps) h in (hp, All-sort_inv ps rest)

  All-keep_inv :
      (f : Provider → Bool) (ps : List Provider)
      → All P (keep f ps)
      → All (λ q. f q ≡ true → P q) ps
  All-keep_inv f [] h = tt
  All-keep_inv f (p ∷ ps) h = elim (Bool-cases (f p)) [
    | inl kept ↦ let h' = rw kept at h in (λ _. h'.0, All-keep_inv f ps h'.1)
    | inr gone ↦ (λ kept. cc, All-keep_inv f ps (rw gone at h))
  ]

module _ {A : Type 0} where
  All-map : (P Q : A → Type 0) (xs : List A) → ((x : A) → P x → Q x) → All P xs → All Q xs
  All-map P Q [] f h = tt
  All-map P Q (x ∷ xs) f h = (f x h.0, All-map P Q xs f h.1)

abbrev IsSorted : List Provider → Type 0
IsSorted [] = Unit
IsSorted (p ∷ ps) =
    All (λ (q : Provider). p.unit_price_atomic ≤ q.unit_price_atomic) ps × IsSorted ps

insert-IsSorted :
    (p : Provider) (ps : List Provider) → IsSorted ps → IsSorted (insert_by_price p ps)
insert-IsSorted p [] h = (tt, tt)
insert-IsSorted p (q ∷ qs) h = elim (Bool-cases (leb p.unit_price_atomic q.unit_price_atomic)) [
  | inl le ↦
      let below : p.unit_price_atomic ≤ q.unit_price_atomic = ground (arith, le) in
      rw le ((below, All-map _ _ qs (λ x b. omega arith) h.0), h)
  | inr gt ↦ rw gt (All-insert _ p qs (ground (arith, gt)) h.0, insert-IsSorted p qs h.1)
]

sort-IsSorted : (ps : List Provider) → IsSorted (sort_by_price ps)
sort-IsSorted [] = tt
sort-IsSorted (p ∷ ps) = insert-IsSorted p (sort_by_price ps) (sort-IsSorted ps)

-- The first match in a sorted list is no dearer than any other.
abbrev Least : (Provider → Bool) → List Provider → Option Provider → Type 0
Least f ps none = All (λ q. f q ≡ false) ps
Least f ps (some p) =
    (f p ≡ true) × All (λ q. f q ≡ true → p.unit_price_atomic ≤ q.unit_price_atomic) ps

Least-cons :
    (f : Provider → Bool) (p : Provider) (ps : List Provider) (o : Option Provider)
    → f p ≡ false
    → Least f ps o
    → Least f (p ∷ ps) o
Least-cons f p ps none e h = (e, h)
Least-cons f p ps (some q) e h = (h.0, (λ t. cc, h.1))

find-Least : (f : Provider → Bool) (ps : List Provider) → IsSorted ps → Least f ps (find f ps)
find-Least f [] h = tt
find-Least f (p ∷ ps) h = elim (Bool-cases (f p)) [
  | inl here ↦ rw here (here, (λ _. omega arith, All-map _ _ ps (λ x b _. b) h.0))
  | inr later ↦ rw later (Least-cons f p ps (find f ps) later (find-Least f ps h.1))
]

-- The quotes that the mandate allows, in the run's present state.
abbrev Fits : Env → Run → Provider → Type 0
Fits env run q = IsWithinMandate env.now run.mandate q (length run.repos) run.data_spent_atomic

-- What the choice promises of all the discovered providers.
abbrev pub IsBestChoice : Env → Run → Option Provider → Type 0
IsBestChoice env run none = All (λ q. ¬ Fits env run q) run.providers
IsBestChoice env run (some p) =
    Fits env run p
    × All (λ q. Fits env run q → p.unit_price_atomic ≤ q.unit_price_atomic) run.providers

module _ (env : Env) (run : Run) where
  Fits→approved : (q : Provider) → Fits env run q → is_approved_for env run q ≡ true
  Fits→approved q h =
      ground
        (arith, (approved_iff env.now run.mandate q (length run.repos) run.data_spent_atomic).1 h)

  approved→Fits : (q : Provider) → is_approved_for env run q ≡ true → Fits env run q
  approved→Fits q h =
      (approved_iff env.now run.mandate q (length run.repos) run.data_spent_atomic).0 (ground arith)

  Least→IsBestChoice :
      (o : Option Provider)
      → Least (is_approved_for env run) (eligible_providers run.mandate run.providers) o
      → IsBestChoice env run o
  unfolding eligible_providers
  Least→IsBestChoice none h =
      All-map _ _ run.providers
        (λ q no_fit fits. absurd (ground (arith, no_fit fits.listed, Fits→approved q fits)))
        (All-keep_inv _ (λ q. includes run.mandate.allowed_providers q.id) run.providers
          (All-sort_inv _ (keep (λ q. includes run.mandate.allowed_providers q.id) run.providers)
            h))
  Least→IsBestChoice (some p) (ok, h) = (
    approved→Fits p ok,
    All-map _ _ run.providers (λ q least fits. least fits.listed (Fits→approved q fits))
        (All-keep_inv _ (λ q. includes run.mandate.allowed_providers q.id) run.providers
          (All-sort_inv _ (keep (λ q. includes run.mandate.allowed_providers q.id) run.providers)
            h)),
  )

  -- The provider that a run buys from is within the mandate and no dearer than any discovered
  -- provider within the mandate; if none is chosen then no discovered provider is within it.
  pub approved_provider-IsBestChoice : IsBestChoice env run (approved_provider env run)
  approved_provider-IsBestChoice = Least→IsBestChoice (approved_provider env run) (
      find-Least (is_approved_for env run) (eligible_providers run.mandate run.providers) (
        unfold eligible_providers in
        sort-IsSorted (keep (λ q. includes run.mandate.allowed_providers q.id) run.providers)))
