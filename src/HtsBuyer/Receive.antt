-- ===== src/HtsBuyer/Receive.antt =====
-- `received`, `completed` and `mirrorProof` of scripts/hedera-token-buyer.ts, with
-- `normalizeTransactionId` and `validateSettlement` of src/lib/integrations/hedera.ts.
use obolos.Prelude.{ℕ, String, Bool, false, ◌&&◌, ◌||◌, not, List, [], ◌∷◌, leb, ◌==◌, nat_beq}
use obolos.Prelude.{nat_eq, list_eq, string_eq, length, codes, is_digit, all, is_empty, Result, ok}
use obolos.Prelude.{◌>>◌, ◌>>=◌, throw_if, if◌then◌else◌}
use obolos.Negotiation.{hedera_network}
use obolos.Negotiation.Schema.{account_codes}
use obolos.Negotiation.Buying.{validate_evidence}
use obolos.HtsBuyer.{HtsRepositoryPurchase, SettleResponse, Received, HtsPurchaseResult}

-- replace('@','-')
abbrev replace_at : List ℕ → List ℕ
replace_at [] = []
replace_at (c ∷ cs) = if nat_beq c b'@' then b'-' ∷ cs else c ∷ replace_at cs

-- replace(/\.(\d+)$/,'-$1')
abbrev replace_last_dot : List ℕ → List ℕ
replace_last_dot [] = []
replace_last_dot (c ∷ cs) =
    if nat_beq c b'.' && not (is_empty cs) && all is_digit cs
    then b'-' ∷ cs
    else c ∷ replace_last_dot cs

-- `normalizeTransactionId`
unfoldable pub normalize_transaction_id : String → List ℕ
normalize_transaction_id id = replace_last_dot (replace_at (codes id))

abbrev put_first : ℕ → List (List ℕ) → List (List ℕ)
put_first c [] = (c ∷ []) ∷ []
put_first c (part ∷ parts) = (c ∷ part) ∷ parts

split_dashes : List ℕ → List (List ℕ)
split_dashes [] = [] ∷ []
split_dashes (c ∷ cs) =
    if nat_beq c b'-' then [] ∷ split_dashes cs else put_first c (split_dashes cs)

is_transaction_parts : List (List ℕ) → Bool
unfolding account_codes
is_transaction_parts (payer ∷ seconds ∷ nanos ∷ []) =
    account_codes payer
    && (leb 10 (length seconds) && all is_digit seconds)
    && (leb 1 (length nanos) && leb (length nanos) 9 && all is_digit nanos)
is_transaction_parts _ = false

-- /^0\.0\.[1-9]\d*-\d{10,}-\d{1,9}$/
unfoldable pub is_transaction_id : List ℕ → Bool
unfolding split_dashes is_transaction_parts
is_transaction_id id = is_transaction_parts (split_dashes id)

-- `validateSettlement`
unfoldable pub validate_settlement : SettleResponse → String → Result String SettleResponse
unfolding normalize_transaction_id is_transaction_id
validate_settlement s payer = do
  throw_if
      (not s.success
        || not (s.network == hedera_network)
        || not (s.payer == payer)
        || not (is_transaction_id (normalize_transaction_id s.transaction)))
      "Payment settlement is unproven; reconcile before retrying."
  ok s

-- `received`
unfoldable pub check_received : Received → HtsRepositoryPurchase → String → Result String Received
unfolding validate_settlement normalize_transaction_id validate_evidence
check_received value input transaction_id = do
  settlement ← validate_settlement value.settlement input.terms.payer
  throw_if
      (not (
        normalize_transaction_id settlement.transaction == normalize_transaction_id transaction_id))
      "HTS settlement differs from the signed transaction; reconcile."
  evidence ← validate_evidence value.evidence input.repos
  ok (record { settlement = settlement; evidence = evidence })

-- `completed`; the status is constant, and the link of the explorer is of the transaction.
abbrev pub completed : HtsRepositoryPurchase → String → Received → HtsPurchaseResult
completed input transaction_id value = record {
  request_id = input.request_id;
  transaction_id = transaction_id;
  network = hedera_network;
  asset = input.terms.asset;
  payer = input.terms.payer;
  pay_to = input.terms.pay_to;
  amount_atomic = input.terms.amount_atomic;
  units = length input.repos;
  evidence = value.evidence;
  settlement = value.settlement;
}
