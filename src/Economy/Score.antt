-- ===== src/Economy/Score.antt =====
-- Bounds of a reputation, and what payments to oneself do to it.
use native.Mathlib.Nat.{div-lt_iff_lt-mul}
use obolos.Prelude.{ℕ, ◌+◌, ◌*◌, ◌/◌, ◌≤◌, ◌<◌, ◌≡◌, refl, String, Bool, true, ◌&&◌}
use obolos.Prelude.{List, [], ◌∷◌, Option, none, some, ok, >>=-ok, ok_injective}
use obolos.Prelude.{
  ◌==◌, nat_eq, string_eq, length, keep, includes, arith, subst, sym, Bool-cases, inl, inr,
}
use obolos.Prelude.{ltb}
use obolos.Economy.Reputation.{ReputationEvidence, Reputation, rate, check_evidence, is_eligible}
use obolos.Economy.Reputation.{
  verified_rate, health_rate, score_of, reputation_of, is_true, has_verdict,
}
use obolos.Economy.Reputation.{calculate_service_reputation, is_healthy, is_known}

-- A rate in basis points, if there is one.
abbrev pub IsRate : Option ℕ → Type 0
IsRate none = Unit
IsRate (some r) = r ≤ 10000

length-keep {ℓ} : {A : Type ℓ} (p : A → Bool) (xs : List A) → length (keep p xs) ≤ length xs
length-keep p [] = omega arith
length-keep p (x ∷ xs) = ground (arith, length-keep p xs)

share : (passed total : ℕ) → passed ≤ total → 0 < total → passed * 10000 / total ≤ 10000
share passed total h positive =
    let below : passed * 10000 / total < 10001 =
      (div-lt_iff_lt-mul positive).1 (omega (arith, h, positive)) in
    omega (arith, below)

rate-IsRate : (passed total : ℕ) → passed ≤ total → IsRate (rate passed total)
unfolding rate
rate-IsRate passed total h = elim (Bool-cases (total == 0)) [
  | inl empty ↦ rw empty tt
  | inr some_total ↦ rw some_total (share passed total h (ground (arith, some_total)))
]

verified_rate-IsRate : (xs : List ReputationEvidence) → IsRate (verified_rate xs)
verified_rate-IsRate xs = elim (Bool-cases (length (keep has_verdict xs) == length xs)) [
  | inr partly ↦ rw partly tt
  | inl whole ↦
      let few =
        length-keep (λ (e : ReputationEvidence). is_true e.verified_output) (keep has_verdict xs) in
      rw whole (rate-IsRate _ (length xs) (ground (arith, few, whole)))
]

health_rate-IsRate : (xs : List ReputationEvidence) → IsRate (health_rate xs)
health_rate-IsRate xs =
    elim (Bool-cases (
      length (keep (λ (e : ReputationEvidence). is_known e.disputed) xs) == length xs
      && ltb 0 (length xs))) [
        | inr partly ↦ rw partly tt
        | inl whole ↦ rw whole (rate-IsRate _ (length xs) (length-keep is_healthy xs))
      ]

weigh :
    (f v q h : ℕ)
    → f ≤ 10000
    → v ≤ 10000
    → q ≤ 10000
    → h ≤ 10000
    → (f * 40 + v * 25 + q * 20 + h * 15) / 100 ≤ 10000
weigh f v q h a b c d = omega (arith, a, b, c, d)

score_of-IsRate :
    (f v q h : Option ℕ) → IsRate f → IsRate v → IsRate q → IsRate h → IsRate (score_of f v q h)
unfolding score_of
score_of-IsRate (some f) (some v) (some q) (some h) a b c d = weigh f v q h a b c d
score_of-IsRate none v q h a b c d = tt
score_of-IsRate (some f) none q h a b c d = tt
score_of-IsRate (some f) (some v) none h a b c d = tt
score_of-IsRate (some f) (some v) (some q) none a b c d = tt

pub record IsFair (r : Reputation) : Type 0 where
  pub score : IsRate r.score
  pub fulfillment : IsRate r.fulfillment_bps
  pub verified : IsRate r.verified_output_bps
  pub quotes : IsRate r.quote_reliability_bps
  pub health : IsRate r.delivery_dispute_health_bps
  pub counted : r.buyer_acknowledgments ≤ r.evidence_count

reputation_of-IsFair : (xs : List ReputationEvidence) (own : ℕ) → IsFair (reputation_of xs own)
unfolding reputation_of
reputation_of-IsFair xs own =
    let f =
      rate-IsRate _ (length xs)
        (length-keep (λ (e : ReputationEvidence). e.buyer_acknowledged) xs) in
    let q =
      rate-IsRate _ (length xs) (length-keep (λ (e : ReputationEvidence). e.quote_honored) xs) in
    let v = verified_rate-IsRate xs in
    let h = health_rate-IsRate xs in
    record {
      score = score_of-IsRate _ _ _ _ f v q h;
      fulfillment = f;
      verified = v;
      quotes = q;
      health = h;
      counted = length-keep (λ (e : ReputationEvidence). e.buyer_acknowledged) xs;
    }

-- Every rate of a calculated reputation, its score among them, is at most 10000 basis points, and
-- the acknowledgments are at most the evidence that counts.
pub calculate_service_reputation-IsFair :
    (evidence : List ReputationEvidence) (r : Reputation)
    → calculate_service_reputation evidence ≡ ok r
    → IsFair r
unfolding calculate_service_reputation
calculate_service_reputation-IsFair evidence r e =
    let (u, _, e1) = >>=-ok (check_evidence [] evidence) _ e in
    subst IsFair (ok_injective _ r e1) (reputation_of-IsFair (keep is_eligible evidence) _)

fewer_seen :
    (few many : List String) (xs : List ReputationEvidence)
    → ((a : String) → includes few a ≡ true → includes many a ≡ true)
    → check_evidence many xs ≡ ok tt
    → check_evidence few xs ≡ ok tt
unfolding check_evidence
fewer_seen few many [] sub e = refl
fewer_seen few many (x ∷ xs) sub e = ground (
  arith,
  sub x.order_id,
  fewer_seen (x.order_id ∷ few) (x.order_id ∷ many) xs (λ a h. ground (arith, sub a, h)),
)

-- What does not depend on payments to oneself.
pub record SameRates (r s : Reputation) : Type 0 where
  pub score : r.score ≡ s.score
  pub fulfillment : r.fulfillment_bps ≡ s.fulfillment_bps
  pub verified : r.verified_output_bps ≡ s.verified_output_bps
  pub quotes : r.quote_reliability_bps ≡ s.quote_reliability_bps
  pub health : r.delivery_dispute_health_bps ≡ s.delivery_dispute_health_bps
  pub count : r.evidence_count ≡ s.evidence_count
  pub verdict_count : r.verified_output_evidence_count ≡ s.verified_output_evidence_count
  pub delivery_count : r.seller_declared_deliveries ≡ s.seller_declared_deliveries
  pub acknowledgment_count : r.buyer_acknowledgments ≡ s.buyer_acknowledgments
  pub limited : r.limited_evidence ≡ s.limited_evidence

same_rates :
    (xs : List ReputationEvidence) (m n : ℕ) → SameRates (reputation_of xs m) (reputation_of xs n)
unfolding reputation_of
same_rates xs m n = record {
  score = refl;
  fulfillment = refl;
  verified = refl;
  quotes = refl;
  health = refl;
  count = refl;
  verdict_count = refl;
  delivery_count = refl;
  acknowledgment_count = refl;
  limited = refl;
}

skip_own :
    (e : ReputationEvidence) (xs : List ReputationEvidence)
    → e.same_owner ≡ true
    → keep is_eligible (e ∷ xs) ≡ keep is_eligible xs
skip_own e xs own = ground (arith, own)

-- Evidence of a payment between services of one owner, put before other evidence, changes no rate,
-- no score, no count of evidence, verdicts, deliveries or acknowledgments, and not whether the
-- evidence is limited, if the whole is calculated.
pub calculate_service_reputation-self_payment :
    (e : ReputationEvidence) (evidence : List ReputationEvidence) (r : Reputation)
    → e.same_owner ≡ true
    → calculate_service_reputation (e ∷ evidence) ≡ ok r
    → (s : Reputation) × (calculate_service_reputation evidence ≡ ok s) × SameRates r s
unfolding calculate_service_reputation
calculate_service_reputation-self_payment e evidence r own h =
    let (u, checked, h1) = >>=-ok (check_evidence [] (e ∷ evidence)) _ h in
    let rest : check_evidence (e.order_id ∷ []) evidence ≡ ok tt =
      unfold check_evidence in ground (arith, checked) in
    let without = fewer_seen [] (e.order_id ∷ []) evidence (λ a seen. cc) rest in
    let same = ok_injective _ r h1 in
    let own_count : List ReputationEvidence → ℕ =
      λ xs. length (keep (λ (x : ReputationEvidence). x.paid && x.same_owner) xs) in
    let left = reputation_of (keep is_eligible evidence) (own_count evidence) in
    (
      left,
      rw without refl,
      subst (λ t. SameRates t left) same
          (subst (λ xs. SameRates (reputation_of xs (own_count (e ∷ evidence))) left)
            (sym (skip_own e evidence own))
            (same_rates (keep is_eligible evidence) (own_count (e ∷ evidence))
              (own_count evidence))),
    )
