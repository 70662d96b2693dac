-- ===== src/Economy/Reputation.antt =====
-- `calculateServiceReputation` of src/lib/economy/reputation.ts.
use obolos.Prelude.{
  ℕ, ◌+◌, ◌*◌, ◌/◌, String, Bool, true, false, ◌&&◌, ◌||◌, not, List, [], ◌∷◌, Option,
}
use obolos.Prelude.{none, some, Result, ok, ◌>>◌, throw_if, ◌==◌, nat_eq, string_eq, if◌then◌else◌}
use obolos.Prelude.{length, keep, includes, ltb}

pub record ReputationEvidence : Type 0 where
  pub order_id : String
  pub paid : Bool
  pub seller_delivered : Bool
  pub buyer_acknowledged : Bool
  pub same_owner : Bool
  pub delivery_failed : Bool
  pub quote_honored : Bool
  pub verified_output : Option Bool
  pub disputed : Option Bool

pub record Reputation : Type 0 where
  pub score : Option ℕ
  pub fulfillment_bps : Option ℕ
  pub verified_output_bps : Option ℕ
  pub quote_reliability_bps : Option ℕ
  pub delivery_dispute_health_bps : Option ℕ
  pub evidence_count : ℕ
  pub verified_output_evidence_count : ℕ
  pub seller_declared_deliveries : ℕ
  pub buyer_acknowledgments : ℕ
  pub limited_evidence : Bool
  pub excluded_self_payments : ℕ

abbrev pub is_true : Option Bool → Bool
is_true none = false
is_true (some b) = b

abbrev pub is_known : Option Bool → Bool
is_known none = false
is_known (some b) = true

-- `const rate`
unfoldable pub rate : ℕ → ℕ → Option ℕ
rate passed total = if total == 0 then none else some (passed * 10000 / total)

-- The loop over the evidence, with the identifiers seen.
unfoldable pub check_evidence : List String → List ReputationEvidence → Result String (Unit {0})
check_evidence ids [] = ok tt
check_evidence ids (e ∷ rest) = do
  throw_if (includes ids e.order_id) "Duplicate reputation evidence"
  throw_if
      ((e.buyer_acknowledged || is_true e.verified_output)
        && (not e.seller_delivered || e.delivery_failed))
      "Contradictory reputation evidence"
  check_evidence (e.order_id ∷ ids) rest

abbrev pub is_eligible : ReputationEvidence → Bool
is_eligible e = e.paid && not e.same_owner

abbrev pub has_verdict : ReputationEvidence → Bool
has_verdict e = is_known e.verified_output

abbrev pub is_healthy : ReputationEvidence → Bool
is_healthy e = not (is_true e.disputed) && not e.delivery_failed

-- `verifiedOutputBps`
abbrev pub verified_rate : List ReputationEvidence → Option ℕ
verified_rate eligible =
    if length (keep has_verdict eligible) == length eligible
    then rate (length (keep (λ e. is_true e.verified_output) (keep has_verdict eligible)))
        (length eligible)
    else none

-- `deliveryDisputeHealthBps`
abbrev pub health_rate : List ReputationEvidence → Option ℕ
health_rate eligible =
    if length (keep (λ e. is_known e.disputed) eligible) == length eligible
      && ltb 0 (length eligible)
    then rate (length (keep is_healthy eligible)) (length eligible)
    else none

-- The weighted mean, if all four rates are known.
unfoldable pub score_of : Option ℕ → Option ℕ → Option ℕ → Option ℕ → Option ℕ
score_of (some f) (some v) (some q) (some h) = some ((f * 40 + v * 25 + q * 20 + h * 15) / 100)
score_of _ _ _ _ = none

abbrev pub is_absent_score : Option ℕ → Bool
is_absent_score none = true
is_absent_score (some s) = false

-- What is returned, of the eligible evidence.
unfoldable pub reputation_of : List ReputationEvidence → ℕ → Reputation
unfolding rate score_of
reputation_of eligible self_payments =
    let count = length eligible in
    let fulfillment = rate (length (keep (λ e. e.buyer_acknowledged) eligible)) count in
    let verified = verified_rate eligible in
    let quotes = rate (length (keep (λ e. e.quote_honored) eligible)) count in
    let health = health_rate eligible in
    let score = score_of fulfillment verified quotes health in
    record {
      score = score;
      fulfillment_bps = fulfillment;
      verified_output_bps = verified;
      quote_reliability_bps = quotes;
      delivery_dispute_health_bps = health;
      evidence_count = count;
      verified_output_evidence_count = length (keep has_verdict eligible);
      seller_declared_deliveries = length (keep (λ e. e.seller_delivered) eligible);
      buyer_acknowledgments = length (keep (λ e. e.buyer_acknowledged) eligible);
      limited_evidence = ltb count 3 || is_absent_score score;
      excluded_self_payments = self_payments;
    }

unfoldable pub calculate_service_reputation : List ReputationEvidence → Result String Reputation
unfolding check_evidence reputation_of
calculate_service_reputation evidence = do
  check_evidence [] evidence
  ok (
      reputation_of (keep is_eligible evidence)
        (length (keep (λ (e : ReputationEvidence). e.paid && e.same_owner) evidence)))
