-- ===== src/Negotiation/Stands.antt =====
-- An offer that a request brought out passes the checks of the agent and of the buyer.
use obolos.Prelude.{ℕ, ◌+◌, ◌≤◌, ◌≡◌, refl, sym, ap, subst, String, true, false, Option, some, ok}
use obolos.Prelude.{Bool, err, leb, length, if◌then◌else◌, Bool-cases, inl, inr}
use obolos.Prelude.{arith, min, all, codes, is_hex, string_eq}
use obolos.Negotiation.{
  A2aConfig, Proposal, OfferPayload, A2aOffer, Quote, Runtime, unpaid_offer, iso,
}
use obolos.Negotiation.{Message}
use obolos.Negotiation.Schema.{instant_of}
use obolos.Negotiation.Config.{validate_config, trusted_base}
use obolos.Negotiation.Token.{sign, verify_offer, is_after}
use obolos.Negotiation.Seller.{validate_seller_offer}
use obolos.Negotiation.Answer.{Desk, answer_proposal, handle_request, with_result, RpcInput, RpcId}
use obolos.Negotiation.Answer.{offer_payload}
use obolos.Negotiation.Issued.{IsIssued, answer_proposal-IsIssued}
use obolos.Negotiation.Signed.{IsFaithful}
use obolos.Negotiation.Agreed.{verify_offer-long, validate_seller_offer-long}
use obolos.Negotiation.Agreed.{verify_offer-sign, validate_seller_offer-sign, IsGood, IsWanted}
use obolos.Negotiation.Terms.{IsTimed, issue_offer-IsTimed, issued-IsGood, IsDatable}
use obolos.Negotiation.Deal.{handle_request-IsOffered}

-- At most 12000 characters, as both checks ask.
abbrev pub is_short_token : A2aOffer → Bool
is_short_token o = leb (length o.offer_token) 12000

module _ (runtime : Runtime) (now later : ℕ) (config : A2aConfig) (p : Proposal) (q : Quote)
    (o : A2aOffer) (issued : IsIssued runtime now config p q o)
    (configured : validate_config runtime config ≡ ok tt)
    (faithful : IsFaithful runtime config.offer_secret o.payload)
    (hex : all is_hex (codes (runtime.sha_identity o.payload.payer o.payload.request_id)) ≡ true)
    (datable : IsDatable now) (order : now ≤ later)
    (ahead : is_after (instant_of o.payload.expires_at) later ≡ true) where
  abbrev timed : IsTimed runtime now config p q o
  timed = issue_offer-IsTimed runtime now config p q o issued.offer

  abbrev payload : OfferPayload
  payload =
      offer_payload runtime now config p q timed.resource
        (iso (min (now + 60000) (min timed.mandate_at timed.quote_at)))

  same : o.payload ≡ payload
  unfolding sign
  same = ap (λ x. x.payload) timed.signed

  good : IsGood runtime later config payload
  good =
      issued-IsGood runtime now later config p q o issued timed configured
        (ground (arith, hex, same)) datable order (ground (arith, ahead, same))

  payload-IsFaithful : IsFaithful runtime config.offer_secret payload
  payload-IsFaithful = subst (λ x. IsFaithful runtime config.offer_secret x) same faithful

  pub issued-verifies :
      verify_offer runtime later config false o.offer_token
      ≡ (if is_short_token o then ok o else err "Invalid offer.")
  issued-verifies = elim (Bool-cases (is_short_token o)) [
    | inr long ↦
        rw long
          (verify_offer-long runtime later config o.offer_token configured (ground (arith, long)))
    | inl short ↦
        let few : length (sign runtime payload config).offer_token ≤ 12000 =
          subst (λ (x : A2aOffer). length x.offer_token ≤ 12000) timed.signed
            (ground (arith, short)) in
        rw short (
          subst (λ x. verify_offer runtime later config false x.offer_token ≡ ok x)
            (sym timed.signed)
            (verify_offer-sign runtime later config payload payload-IsFaithful configured good few))
  ]

  pub issued-wanted :
      (base : String)
      → trusted_base runtime base ≡ trusted_base runtime config.resource_base_url
      → validate_seller_offer runtime later o p base config.pay_to
        ≡ (if is_short_token o then ok o else err "Invalid seller offer.")
  issued-wanted base pinned =
      let wanted : IsWanted runtime base config.pay_to p payload = record {
        valid = issued.proposal;
        request_id = refl;
        payer = refl;
        provider = refl;
        repos = refl;
        most = refl;
        mandate = refl;
        recipient = refl;
        resource = rw pinned timed.href;
      } in
      elim (Bool-cases (is_short_token o)) [
        | inr long ↦ rw long (
            validate_seller_offer-long runtime later o p base config.pay_to issued.proposal
              (ground (arith, long)))
        | inl short ↦
            let few : length (sign runtime payload config).offer_token ≤ 12000 =
              subst (λ (x : A2aOffer). length x.offer_token ≤ 12000) timed.signed
                (ground (arith, short)) in
            rw short (
              subst (λ x. validate_seller_offer runtime later x p base config.pay_to ≡ ok x)
                (sym timed.signed)
                (validate_seller_offer-sign runtime later config base p payload payload-IsFaithful
                  good wanted few))
      ]

-- When a request is answered with an unpaid offer, then from the reading of the clock for the offer
-- until the offer expires, the check of its token returns exactly that offer if the token has at most
-- 12000 characters, and throws "Invalid offer." if it has more; provided that the JSON of the payload
-- is some bytes that are read back as the payload, its HMAC is 32 bytes, SHA-256 is written in
-- hexadecimal and the clock is not within a minute of the year 10000.
pub handle_request-verify_offer :
    (runtime : Runtime) (desk : Desk) (config : A2aConfig) (input : RpcInput) (back : RpcId)
    (m : Message) (o : A2aOffer) (later : ℕ)
    → handle_request runtime desk config input ≡ with_result back m
    → m.content ≡ unpaid_offer o
    → IsFaithful runtime config.offer_secret o.payload
    → all is_hex (codes (runtime.sha_identity o.payload.payer o.payload.request_id)) ≡ true
    → IsDatable desk.quoted_at
    → desk.quoted_at ≤ later
    → is_after (instant_of o.payload.expires_at) later ≡ true
    → verify_offer runtime later config false o.offer_token
      ≡ (if is_short_token o then ok o else err "Invalid offer.")
handle_request-verify_offer runtime desk config input back m o later e c faithful hex datable order
      ahead =
    let offered = handle_request-IsOffered runtime desk config input back m o e c in
    issued-verifies runtime desk.quoted_at later config offered.proposal offered.quote o
      offered.issued offered.configured faithful hex datable order ahead

-- When a proposal is answered with an unpaid offer, then until the offer expires the buyer's check
-- of that offer against the same proposal, the seller's account and a base that reads as the
-- seller's resource base returns exactly the offer if its token has at most 12000 characters, and
-- throws "Invalid seller offer." if it has more; under a valid configuration and provided the same of
-- JSON, HMAC, SHA-256 and the clock.
pub answer_proposal-validate_seller_offer :
    (runtime : Runtime) (desk : Desk) (config : A2aConfig) (context : Option String) (p : Proposal)
    (m : Message) (o : A2aOffer) (later : ℕ) (base : String)
    → answer_proposal runtime desk config context (some p) ≡ ok m
    → m.content ≡ unpaid_offer o
    → validate_config runtime config ≡ ok tt
    → IsFaithful runtime config.offer_secret o.payload
    → all is_hex (codes (runtime.sha_identity o.payload.payer o.payload.request_id)) ≡ true
    → IsDatable desk.quoted_at
    → desk.quoted_at ≤ later
    → is_after (instant_of o.payload.expires_at) later ≡ true
    → trusted_base runtime base ≡ trusted_base runtime config.resource_base_url
    → validate_seller_offer runtime later o p base config.pay_to
      ≡ (if is_short_token o then ok o else err "Invalid seller offer.")
answer_proposal-validate_seller_offer runtime desk config context p m o later base e c configured
      faithful hex datable order ahead pinned =
    let (q, issued) = answer_proposal-IsIssued runtime desk config context p m o e c in
    issued-wanted runtime desk.quoted_at later config p q o issued configured faithful hex datable
      order ahead base pinned
