-- ===== src/Economy/Tests.antt =====
-- The reputation and the cost of a delivery, of src/lib/economy, on sample evidence.
use obolos.Prelude.{◌≡◌, refl, ℕ, String, Bool, true, false, List, [], ◌∷◌, some, ok, is_hex_codes}
use obolos.Economy.Reputation.{ReputationEvidence, Reputation, calculate_service_reputation}
use obolos.Economy.Reputation.{reputation_of}
use obolos.Economy.Score.{IsFair, SameRates, calculate_service_reputation-IsFair}
use obolos.Economy.Score.{calculate_service_reputation-self_payment}
use obolos.Economy.Receipts.{
  TransactionReceipt, ExpectedDelivery, ReceiptCost, receipt_cost, IsCost,
}
use obolos.Economy.Receipts.{receipt_cost-IsCost}
use obolos.Engine.Create.{lower_codes}

abbrev evidence : String → Bool → ReputationEvidence
evidence id own = record {
  order_id = id;
  paid = true;
  seller_delivered = true;
  buyer_acknowledged = true;
  same_owner = own;
  delivery_failed = false;
  quote_honored = true;
  verified_output = some true;
  disputed = some false;
}

abbrev others : List ReputationEvidence
others = evidence "order-1" false ∷ evidence "order-2" false ∷ []

abbrev reputation : ℕ → Reputation
reputation own = reputation_of others own

with_own : calculate_service_reputation (evidence "order-3" true ∷ others) ≡ ok (reputation 1)
unfolding calculate_service_reputation
with_own = refl

full_score : (reputation 1).score ≡ some 10000
unfolding reputation_of
full_score = refl

calculate_service_reputation-IsFair_example : IsFair (reputation 1)
calculate_service_reputation-IsFair_example =
    calculate_service_reputation-IsFair (evidence "order-3" true ∷ others) (reputation 1) with_own

calculate_service_reputation-self_payment_example :
    (s : Reputation) × (calculate_service_reputation others ≡ ok s) × SameRates (reputation 1) s
calculate_service_reputation-self_payment_example =
    calculate_service_reputation-self_payment (evidence "order-3" true) others (reputation 1) refl
      with_own

abbrev hash : String
hash = "0x00000000000000000000000000000000000000000000000000000000000000Ab"

abbrev receipt : TransactionReceipt
receipt = record {
  transaction_hash = hash;
  sender = "0xA";
  to = some "0xB";
  status = "success";
  block_number = 7;
  gas_used = 3;
  effective_gas_price = 500000000001;
}

abbrev delivery : ExpectedDelivery
delivery = record { seller = "0xa"; ledger = "0xb"; transaction_hash = hash; finalized_block = 7 }

abbrev cost : ReceiptCost
cost = record {
  transaction_hash = lower_codes hash;
  native_atomic = 1500000000003;
  amount_atomic = 2;
}

cost_lem : receipt_cost receipt delivery ≡ ok cost
unfolding receipt_cost is_hex_codes
cost_lem = refl

receipt_cost-IsCost_example : IsCost receipt delivery cost
receipt_cost-IsCost_example = receipt_cost-IsCost receipt delivery cost cost_lem
