-- ===== src/Negotiation/Tests.antt =====
-- The negotiation on a sample.
use obolos.Prelude.{All, arith, ◌≡◌, refl, String, [], ◌∷◌, some, none, false, ok}
use obolos.Negotiation.Base64.RoundTrip.{IsByte}
use obolos.Negotiation.Schema.{create_quote}
use obolos.Negotiation.Config.{validate_config, trusted_base}
use obolos.Negotiation.Token.{verify_offer, read_payload}
use obolos.Negotiation.Seller.{validate_seller_offer}
use obolos.Negotiation.Answer.{
  Desk, handle_request, answer_proposal, with_result, text_id, an_object,
}
use obolos.Negotiation.Answer.{part_of, accept_data, minus_32601, minus_32602, RpcRequest}
use obolos.Negotiation.Buying.{purchase_accepted_offer, PaidOffer}
use obolos.Negotiation.Signed.{IsFaithful}
use obolos.Negotiation.Bounds.{IsVerified, verify_offer-IsVerified}
use obolos.Negotiation.Agreement.{IsAgreed, validate_seller_offer-IsAgreed}
use obolos.Negotiation.Codes.{id_in, code_in}
use obolos.Negotiation.Replies.{Answers, handle_request-Answers}
use obolos.Negotiation.Paid.{IsPaid, purchase_accepted_offer-IsPaid}
use obolos.Negotiation.Stands.{handle_request-verify_offer, answer_proposal-validate_seller_offer}
use obolos.Negotiation.Samples.{
  config, digest, proposal, runtime, desk, request, request_with, offer,
}
use obolos.Negotiation.Samples.{offer_message, credentials, receipt, evidence, purchase}

answered :
    handle_request runtime desk config (an_object request) ≡ with_result (text_id "1") offer_message
unfolding handle_request create_quote offer_message part_of
answered = refl

digest_bytes : All IsByte digest
digest_bytes = ground arith

faithful : IsFaithful runtime config.offer_secret offer.payload
unfolding offer
faithful = record {
  read = refl;
  bytes = (omega arith, (omega arith, (omega arith, (omega arith, tt))));
  some_byte = omega arith;
  digest_bytes = digest_bytes;
  digest_length = refl;
}

handle_request-verify_offer_example :
    verify_offer runtime 1049999 config false offer.offer_token ≡ ok offer
unfolding offer_message
handle_request-verify_offer_example =
    handle_request-verify_offer runtime desk config (an_object request) (text_id "1") offer_message
      offer 1049999 answered refl faithful refl (omega arith) (omega arith) refl

proposed : answer_proposal runtime desk config none (some proposal) ≡ ok offer_message
unfolding answer_proposal create_quote offer_message trusted_base
proposed = refl

configured : validate_config runtime config ≡ ok tt
unfolding validate_config
configured = refl

answer_proposal-validate_seller_offer_example :
    validate_seller_offer runtime 1049999 offer proposal "https://data.example/" "0.0.5001"
    ≡ ok offer
unfolding offer_message
answer_proposal-validate_seller_offer_example =
    answer_proposal-validate_seller_offer runtime desk config none proposal offer_message offer
      1049999 "https://data.example/" proposed refl configured faithful refl (omega arith)
      (omega arith) refl refl

verified : verify_offer runtime 1000000 config false offer.offer_token ≡ ok offer
unfolding verify_offer offer read_payload
verified = refl

verify_offer-IsVerified_example : IsVerified runtime 1000000 config false offer.offer_token offer
verify_offer-IsVerified_example =
    verify_offer-IsVerified runtime 1000000 config false offer.offer_token offer verified

taken :
    validate_seller_offer runtime 1000000 offer proposal "https://data.example/" "0.0.5001"
    ≡ ok offer
unfolding validate_seller_offer offer read_payload trusted_base
taken = refl

validate_seller_offer-IsAgreed_example : IsAgreed 1000000 proposal "0.0.5001" offer.payload
validate_seller_offer-IsAgreed_example =
    validate_seller_offer-IsAgreed runtime 1000000 offer proposal "https://data.example/" "0.0.5001"
      offer taken

-- A method that is not known.
abbrev unknown : RpcRequest
unknown = record request { method = some "message/stream" }

handle_request-Answers_example :
    Answers runtime desk config unknown
      (id_in (handle_request runtime desk config (an_object unknown)))
      (code_in (handle_request runtime desk config (an_object unknown)))
handle_request-Answers_example = handle_request-Answers runtime desk config unknown

unknown_code : code_in (handle_request runtime desk config (an_object unknown)) ≡ some minus_32601
unfolding handle_request
unknown_code = refl

abbrev accepting : String → RpcRequest
unfolding offer
accepting context =
    request_with
      (accept_data (
        some (record { payer = "0.0.7001"; request_id = "op-1"; offer_token = offer.offer_token })))
      (some context)

abbrev later_desk : Desk
later_desk = record desk { asked_at = 1000500 }

-- The offer accepted, and under another context.
accepted_answer :
    code_in (handle_request runtime later_desk config (an_object (accepting "commerce-00ff")))
    ≡ none
unfolding handle_request offer read_payload trusted_base part_of
accepted_answer = refl

other_context :
    code_in (handle_request runtime later_desk config (an_object (accepting "commerce-01")))
    ≡ some minus_32602
unfolding handle_request offer read_payload trusted_base part_of
other_context = refl

abbrev paid : PaidOffer
paid = record {
  offer_id = "ab12";
  context_id = "commerce-00ff";
  payer = "0.0.7001";
  resource_url = "https://data.example/evidence/repo-standard";
  receipt = receipt;
  evidence = evidence ∷ [];
}

bought :
    purchase_accepted_offer runtime 1000000 offer credentials "https://data.example/" purchase
    ≡ ok paid
unfolding purchase_accepted_offer offer trusted_base
bought = refl

purchase_accepted_offer-IsPaid_example :
    IsPaid runtime 1000000 offer credentials "https://data.example/" purchase paid
purchase_accepted_offer-IsPaid_example =
    purchase_accepted_offer-IsPaid runtime 1000000 offer credentials "https://data.example/"
      purchase paid bought
