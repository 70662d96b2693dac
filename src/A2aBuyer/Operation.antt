-- ===== src/A2aBuyer/Operation.antt =====
-- `runA2ABuyer` of scripts/hedera-a2a-buyer.ts, on the file of the operation.
use obolos.Prelude.{ℕ, String, Bool, false, ◌&&◌, ◌||◌, not, [], ◌∷◌, Option, none, some}
use obolos.Prelude.{leb, ltb, ◌==◌, nat_eq, list_eq, string_eq, any, all, codes, is_digit}
use obolos.Prelude.{includes, is_empty, joined, Result, ok, err, throw_if, if◌then◌else◌}
use obolos.Prelude.{◌>>=◌ as ◌and◌}
use obolos.Policy.{is_safe_integer}
use obolos.Negotiation.{Runtime, Proposal, A2aOffer, extension}
use obolos.Negotiation.Schema.{
  is_account, is_identity_text, is_provider, validate_repos, instant_of,
}
use obolos.Negotiation.Config.{AgentCard, trusted_base, href}
use obolos.Negotiation.Seller.{validate_seller_offer}
use obolos.Negotiation.Buying.{HederaCredentials, PaidOffer, accepted_purchase, accept_result}
use obolos.HtsBuyer.{WriteEnd, written, lost, torn, half_done}
use obolos.HtsBuyer.Terms.{number_of}
use obolos.HtsBuyer.Market.{is_stale}
use obolos.A2aBuyer.{BuyerArgs, BuyerEnv, BuyerIntent, PublicProof, OperationStatus, negotiating}
use obolos.A2aBuyer.{is_accepted, is_completed, OperationRecord, OperationFile, missing, unreadable}
use obolos.A2aBuyer.{contents, SellerData, offer_data, accepted_data, SellerReply, Deal}
use obolos.A2aBuyer.{A2aEvent, proposing, accepting, paying, OperationState}
use obolos.Stateful.{Stateful, lift, then_run, ◌>>=◌, ◌>>◌}

abbrev pub max_of : BuyerArgs → ℕ
unfolding number_of
max_of args = number_of 0 (codes args.max_value)

unfoldable pub is_bad_usage : ℕ → BuyerArgs → Bool
unfolding number_of
is_bad_usage now args =
    not (is_identity_text 100 (codes args.operation))
    || not (is_provider args.provider_id)
    || (is_empty (codes args.max_value) || not (all is_digit (codes args.max_value)))
    || not (is_safe_integer (max_of args))
    || ltb (max_of args) 1
    || is_stale (instant_of args.mandate_expires_at) now

abbrev is_within_cap : Option ℕ → ℕ → Bool
is_within_cap none most = false
is_within_cap (some cap) most = is_safe_integer cap && leb 1 cap && leb most cap

unfoldable pub exceeds_allowance : BuyerArgs → BuyerEnv → Bool
unfolding number_of is_account
exceeds_allowance args env =
    not (is_account env.hedera_pay_to)
    || not (is_within_cap env.broker_max_data_atomic (max_of args))
    || not (includes env.broker_allowed_providers args.provider_id)

-- The intent that the arguments and the environment stand for.
unfoldable pub intent_of : Runtime → ℕ → BuyerArgs → BuyerEnv → Result String BuyerIntent
unfolding is_bad_usage validate_repos trusted_base exceeds_allowance number_of
intent_of runtime now args env =
    throw_if (is_bad_usage now args)
      "Usage: hedera-a2a-buyer.ts OPERATION PROVIDER MAX_TINYBAR MANDATE_EXPIRY REPO [REPO ...]"
    and λ used.
        (validate_repos args.repos and λ repos.
        (trusted_base runtime env.data_service_url and λ resource_base.
        (trusted_base runtime env.a2a_public_url and λ base.
        (throw_if (exceeds_allowance args env)
            "Purchase exceeds configured private broker allowance."
          and λ allowed. ok (record {
            operation = args.operation;
            provider_id = args.provider_id;
            max_amount_atomic = max_of args;
            mandate_expires_at = args.mandate_expires_at;
            repos = repos;
            endpoint = href base "api/hedera/a2a";
            resource_base = href resource_base "";
            pay_to = env.hedera_pay_to;
          })))))

unfoldable pub is_other_card : AgentCard → BuyerIntent → Bool
is_other_card card intent =
    not (card.protocol_version == "0.3.0")
    || not (card.preferred_transport == "JSONRPC")
    || not (card.url == intent.endpoint)
    || not (any (λ e. e.uri == extension) card.extensions)
    || not (includes card.default_output_modes "application/json")

abbrev pub proposal_of : BuyerIntent → HederaCredentials → Proposal
proposal_of intent secrets = record {
  payer = secrets.account_id;
  request_id = intent.operation;
  provider_id = intent.provider_id;
  repos = intent.repos;
  max_amount_atomic = intent.max_amount_atomic;
  mandate_expires_at = intent.mandate_expires_at;
}

-- The end of `send`.
unfoldable pub read_reply : String → Result String SellerReply → Result String SellerData
read_reply message_id response = response and λ reply.
    (throw_if (not (reply.id == message_id) || not reply.is_message) "Invalid A2A response."
      and λ done. ok reply.content)

unfoldable pub offered_in : SellerData → Result String A2aOffer
offered_in (offer_data o) = ok o
offered_in _ = err "Seller counteroffer requires a new explicit mandate; no payment attempted."

-- The acceptance of the same offer.
unfoldable pub accepted_in : SellerData → A2aOffer → Result String A2aOffer
accepted_in (accepted_data a) offer =
    if (a.offer_token == offer.offer_token) && (a.offer_id == offer.offer_id)
    then ok a
    else err "Seller did not accept the same offer."
accepted_in _ offer = err "Seller did not accept the same offer."

abbrev pub Act : Type 0 → Type 0
Act = Stateful OperationState

abbrev pub emit : A2aEvent → Act (Unit {0})
emit event s = (record s { events = event ∷ s.events }, ok tt)

-- `save`, by a rename; it does not wait for the directory.
unfoldable pub save : WriteEnd → OperationRecord → Act (Unit {0})
save written entry s = (record s { file = contents entry }, ok tt)
save half_done entry s = (record s { file = contents entry }, err "save failed")
save _ entry s = (s, err "save failed")

-- The exclusive write of the intent, when the file is not there.
unfoldable pub reserve : WriteEnd → OperationRecord → Act (Unit {0})
reserve written entry s = (record s { file = contents entry }, ok tt)
reserve lost entry s = (s, err "open failed")
reserve torn entry s = (record s { file = unreadable }, err "write failed")
reserve half_done entry s = (record s { file = contents entry }, err "sync failed")

abbrev pub proof_of : PaidOffer → PublicProof
proof_of paid = record {
  offer_id = paid.offer_id;
  context_id = paid.context_id;
  payer = paid.payer;
  resource_url = paid.resource_url;
  network = paid.receipt.network;
  asset = paid.receipt.asset;
  amount_atomic = paid.receipt.amount_atomic;
  units = paid.receipt.units;
  transaction_id = paid.receipt.transaction_id;
  explorer_url = paid.receipt.explorer_url;
}

-- `purchaseAcceptedOffer`, whose purchase is an event, and the last write.
unfoldable pub pay_offer :
    Runtime → Deal → OperationRecord → HederaCredentials → A2aOffer → Act PublicProof
unfolding accepted_purchase accept_result save
pay_offer runtime deal entry secrets offer = do
  request ← lift (accepted_purchase runtime deal.now offer secrets entry.intent.resource_base)
  emit (paying request)
  answer ← lift (deal.purchase request)
  paid ← lift (accept_result offer answer)
  save deal.complete_end (record entry { status = is_completed offer (proof_of paid) })
  lift (ok (proof_of paid))

-- The offer of the seller, checked against the proposal.
unfoldable pub agreed_offer : Runtime → Deal → BuyerIntent → Proposal → Result String A2aOffer
unfolding read_reply offered_in validate_seller_offer
agreed_offer runtime deal intent proposal =
    read_reply (joined (intent.operation ∷ "-propose" ∷ [])) deal.first_reply and λ response.
    (offered_in response and λ offered.
    validate_seller_offer runtime deal.now offered proposal intent.resource_base intent.pay_to)

-- The acceptance, checked against the offer and the proposal.
unfoldable pub agreed_acceptance :
    Runtime → Deal → BuyerIntent → Proposal → A2aOffer → Result String A2aOffer
unfolding read_reply accepted_in validate_seller_offer
agreed_acceptance runtime deal intent proposal offer =
    read_reply (joined (intent.operation ∷ "-accept" ∷ [])) deal.second_reply and λ response.
    (accepted_in response offer and λ acceptance.
    validate_seller_offer runtime deal.now acceptance proposal intent.resource_base intent.pay_to)

-- What follows the acceptance.
unfoldable pub save_and_pay :
    Runtime → Deal → OperationRecord → HederaCredentials → A2aOffer → Act PublicProof
unfolding save pay_offer
save_and_pay runtime deal entry secrets offer = do
  save deal.accept_end (record entry { status = is_accepted offer })
  pay_offer runtime deal entry secrets offer

-- What follows the reserved intent.
unfoldable pub negotiate : Runtime → Deal → OperationRecord → Act PublicProof
unfolding is_other_card agreed_offer agreed_acceptance save_and_pay
negotiate runtime deal entry = do
  card ← lift deal.card
  lift (
      throw_if (is_other_card card entry.intent)
        "Seller Agent Card differs from pinned A2A service.")
  secrets ← lift deal.secrets
  emit proposing
  offer ← lift (agreed_offer runtime deal entry.intent (proposal_of entry.intent secrets))
  emit accepting
  acceptance ←
      lift (agreed_acceptance runtime deal entry.intent (proposal_of entry.intent secrets) offer)
  save_and_pay runtime deal entry secrets offer

abbrev is_finished : OperationStatus → Result String PublicProof
is_finished (is_completed offer proof) = ok proof
is_finished _ =
    err "Operation was already started; reconcile the existing payment identity before retrying."

abbrev pub new_record : String → BuyerIntent → OperationRecord
new_record fingerprint intent = record {
  fingerprint = fingerprint;
  status = negotiating;
  intent = intent;
}

-- By the file of the operation.
unfoldable pub start_or_answer :
    Runtime → Deal → String → BuyerIntent → OperationFile → Act PublicProof
unfolding reserve negotiate
start_or_answer runtime deal fingerprint intent missing = do
  reserve deal.reserve_end (new_record fingerprint intent)
  negotiate runtime deal (new_record fingerprint intent)
start_or_answer runtime deal fingerprint intent unreadable = lift (err "Unexpected token")
start_or_answer runtime deal fingerprint intent (contents old) = lift (
    if not (old.fingerprint == fingerprint)
    then err "Operation belongs to another intent."
    else is_finished old.status)

-- `runA2ABuyer`
unfoldable pub run_a2a_buyer :
    Runtime → (BuyerIntent → String) → Deal → BuyerArgs → BuyerEnv → Act PublicProof
unfolding intent_of start_or_answer
run_a2a_buyer runtime hash deal args env s =
    then_run (lift (intent_of runtime deal.now args env) s)
      (λ intent. start_or_answer runtime deal (hash intent) intent s.file)
