-- ===== src/Negotiation/Buying.antt =====
-- `purchaseAcceptedOffer` of src/lib/hedera/a2a.ts and `validateEvidence` of
-- src/lib/integrations/hedera.ts. The purchase itself is a parameter; the clock is read once.
use obolos.Prelude.{
  ℕ, String, Bool, true, false, ◌&&◌, ◌||◌, not, List, [], ◌∷◌, Option, none, some,
}
use obolos.Prelude.{leb, ◌==◌, nat_beq, nat_eq, list_eq, string_eq, length, codes}
use obolos.Prelude.{Result, ok, ◌>>◌, ◌>>=◌, throw_if}
use obolos.Contracts.{
  DataPurchase, Receipt, RepoEvidence, live, settled, hedera_testnet, hbar, mode_eq,
}
use obolos.Contracts.{ReceiptStatus, network_eq, asset_eq, has_passed}
use obolos.Policy.{is_safe_integer}
use obolos.Engine.Create.{lower_codes}
use obolos.Engine.Verify.{source_of, is_date}
use obolos.Negotiation.{A2aOffer, Runtime}
use obolos.Negotiation.Schema.{instant_of}
use obolos.Negotiation.Config.{href_below, evidence_path}

pub record HederaCredentials : Type 0 where
  pub account_id : String
  pub private_key : String

-- The purchase with the token of its offer.
pub record TokenPurchase : Type 0 where
  pub request : DataPurchase
  pub a2a_offer_token : List ℕ

pub record PaidOffer : Type 0 where
  pub offer_id : String
  pub context_id : String
  pub payer : String
  pub resource_url : String
  pub receipt : Receipt
  pub evidence : List RepoEvidence

abbrev is_short : String → Bool
is_short s = leb (length (codes s)) 10000

abbrev pub is_valid_entry : RepoEvidence → String → Bool
is_valid_entry e repo =
    (lower_codes e.repo == lower_codes repo)
    && (e.source_url == source_of repo)
    && is_date e.fetched_at
    && is_date e.pushed_at
    && (is_safe_integer e.stars && is_safe_integer e.forks && is_safe_integer e.open_issues)
    && (is_short e.description && is_short e.language && is_short e.license)

-- One entry for each repository, in their order.
unfoldable pub is_evidence : List RepoEvidence → List String → Bool
is_evidence [] [] = true
is_evidence (e ∷ es) (r ∷ rs) = is_valid_entry e r && is_evidence es rs
is_evidence _ _ = false

-- `validateEvidence`
unfoldable pub validate_evidence :
    List RepoEvidence → List String → Result String (List RepoEvidence)
unfolding is_evidence
validate_evidence value repos = do
  throw_if (not (nat_beq (length value) (length repos))) "Provider returned incomplete evidence."
  throw_if (not (is_evidence value repos)) "Provider evidence failed source/schema validation."
  ok value

-- The purchase of an accepted offer, when it may be made.
unfoldable pub accepted_purchase :
    Runtime → ℕ → A2aOffer → HederaCredentials → String → Result String TokenPurchase
accepted_purchase runtime now offer credentials resource_base_url =
    let o = offer.payload in
    do
      throw_if (not (credentials.account_id == o.payer)) "Offer payer differs from private payer."
      resource ← href_below runtime resource_base_url (evidence_path o.provider_id)
      throw_if (not (resource == o.resource_url))
          "Private resource differs from accepted exact resource."
      throw_if
          (has_passed (instant_of o.expires_at) now
            || has_passed (instant_of o.mandate_expires_at) now)
          "Accepted offer expired."
      ok (record {
        request = record {
          run_id = o.context_id;
          request_id = offer.payment_request_id;
          repos = o.repos;
          provider_id = o.provider_id;
          max_amount_atomic = o.max_amount_atomic;
          unit_price_atomic = o.unit_price_atomic;
          mandate_expires_at = instant_of o.expires_at;
        };
        a2a_offer_token = offer.offer_token;
      })

abbrev is_settled : ReceiptStatus → Bool
is_settled settled = true
is_settled _ = false

abbrev is_text : Option String → Bool
is_text none = false
is_text (some s) = not (s == "")

unfoldable pub is_other_receipt : Receipt → A2aOffer → Bool
is_other_receipt receipt offer =
    let o = offer.payload in
    not (receipt.request_id == offer.payment_request_id)
    || not (receipt.mode == live)
    || not (is_settled receipt.status)
    || not (receipt.network == hedera_testnet)
    || not (receipt.asset == hbar)
    || not (receipt.provider == o.provider_id)
    || not (nat_beq receipt.units (length o.repos))
    || not (nat_beq receipt.amount_atomic o.amount_atomic)
    || not (is_text receipt.transaction_id)

-- What the purchase answered for an offer.
unfoldable pub accept_result : A2aOffer → Receipt × List RepoEvidence → Result String PaidOffer
unfolding is_other_receipt validate_evidence
accept_result offer (receipt, evidence) = do
  throw_if (is_other_receipt receipt offer)
      "Paid receipt does not match the accepted offer; reconcile before retrying."
  checked ← validate_evidence evidence offer.payload.repos
  ok (record {
    offer_id = offer.offer_id;
    context_id = offer.payload.context_id;
    payer = offer.payload.payer;
    resource_url = offer.payload.resource_url;
    receipt = receipt;
    evidence = checked;
  })

-- `purchaseAcceptedOffer`
unfoldable pub purchase_accepted_offer :
    Runtime
    → ℕ
    → A2aOffer
    → HederaCredentials
    → String
    → (TokenPurchase → Result String (Receipt × List RepoEvidence))
    → Result String PaidOffer
unfolding accepted_purchase accept_result
purchase_accepted_offer runtime now offer credentials resource_base_url purchase = do
  request ← accepted_purchase runtime now offer credentials resource_base_url
  answer ← purchase request
  accept_result offer answer
