-- ===== src/Negotiation/Seller.antt =====
-- `validateSellerOffer` of src/lib/hedera/a2a.ts: what a buyer, who has no secret of the seller,
-- checks of an answer. The clock is read once.
use obolos.Prelude.{ℕ, ◌+◌, ◌*◌, String, Bool, false, ◌||◌, not, List, Eq, nat_eq}
use obolos.Prelude.{list_eq, leb, ltb, ◌==◌, nat_beq, string_eq, length, discrete_eq, ok, Result}
use obolos.Prelude.{string_discrete, ℕ_discrete, ◌>>◌, ◌>>=◌, throw_if, or_throw, none, some}
use obolos.Contracts.{ParsedDate}
use obolos.Negotiation.{Proposal, OfferPayload, A2aOffer, Runtime}
use obolos.Negotiation.Schema.{
  is_proposal, validate_repos, instant_of, text_date_discrete, text_date_eq,
}
use obolos.Negotiation.Config.{href_below, evidence_path}
use obolos.Negotiation.Token.{split_dots, two_parts, is_signature, read_payload, with_token}
use obolos.Negotiation.Token.{is_after, is_beyond}

payload_discrete : Discrete OfferPayload
unfolding ℕ_discrete string_discrete text_date_discrete
payload_discrete = hlevel (string_discrete, ℕ_discrete, text_date_discrete)

unfoldable pub offer_discrete : Discrete A2aOffer
unfolding ℕ_discrete string_discrete text_date_discrete payload_discrete
offer_discrete = hlevel (string_discrete, ℕ_discrete, payload_discrete)

-- The comparison of every entry by its JSON.
instance abbrev pub offer_eq : Eq A2aOffer
offer_eq = discrete_eq offer_discrete

-- `a<=b` on parsed dates.
abbrev is_not_after : ParsedDate → ParsedDate → Bool
is_not_after (some a) (some b) = leb a b
is_not_after _ _ = false

-- `a>b` on parsed dates.
abbrev is_later : ParsedDate → ParsedDate → Bool
is_later none b = false
is_later (some a) b = is_beyond a b

-- `a-b>60000` on parsed dates.
abbrev is_long : ParsedDate → ParsedDate → Bool
is_long (some a) (some b) = ltb (b + 60000) a
is_long _ _ = false

-- The last condition, up to the resource.
unfoldable pub is_other_purchase : OfferPayload → Proposal → String → Bool
unfolding text_date_discrete
is_other_purchase offer p pay_to =
    not (offer.request_id == p.request_id)
    || not (offer.payer == p.payer)
    || not (offer.provider_id == p.provider_id)
    || not (offer.repos == p.repos)
    || not (nat_beq offer.max_amount_atomic p.max_amount_atomic)
    || not (offer.mandate_expires_at == p.mandate_expires_at)
    || not (offer.pay_to == pay_to)
    || (offer.payer == pay_to)

-- The last condition, from the resource on.
unfoldable pub differs : ℕ → OfferPayload → Proposal → String → Bool
differs now offer p resource =
    let expiry = instant_of offer.expires_at in
    let issued = instant_of offer.issued_at in
    not (offer.resource_url == resource)
    || not (nat_beq offer.amount_atomic (offer.unit_price_atomic * length p.repos))
    || ltb p.max_amount_atomic offer.amount_atomic
    || is_not_after expiry (some now)
    || is_later expiry (instant_of p.mandate_expires_at)
    || is_after issued (now + 1000)
    || is_not_after expiry issued
    || is_long expiry issued

-- The payload of a token whose signature the buyer cannot check.
unfoldable pub read_seller_token : Runtime → List ℕ → Result String OfferPayload
unfolding split_dots
read_seller_token runtime token = do
  throw_if (ltb 12000 (length token)) "Invalid seller offer."
  (body, signature) ← or_throw "Invalid seller offer token." (two_parts (split_dots token))
  throw_if (not (is_signature signature)) "Invalid seller offer token."
  read_payload runtime body

-- The tests of the payload and of the entries beside it.
unfoldable pub check_seller_offer :
    Runtime → ℕ → A2aOffer → OfferPayload → Proposal → String → String → Result String (Unit {0})
unfolding validate_repos is_other_purchase differs offer_discrete
check_seller_offer runtime now value payload p resource_base_url pay_to = do
  repos ← validate_repos payload.repos
  throw_if
      (not (value == with_token runtime payload value.offer_token)
        || is_other_purchase payload p pay_to)
      "Seller offer differs from approved exact purchase."
  resource ← href_below runtime resource_base_url (evidence_path p.provider_id)
  throw_if (differs now payload p resource) "Seller offer differs from approved exact purchase."

-- `validateSellerOffer`, on an answer with the entries of an offer.
unfoldable pub validate_seller_offer :
    Runtime → ℕ → A2aOffer → Proposal → String → String → Result String A2aOffer
unfolding is_proposal read_seller_token check_seller_offer
validate_seller_offer runtime now value p resource_base_url pay_to = do
  throw_if (not (is_proposal p)) "Invalid proposal."
  payload ← read_seller_token runtime value.offer_token
  check_seller_offer runtime now value payload p resource_base_url pay_to
  ok (with_token runtime payload value.offer_token)
