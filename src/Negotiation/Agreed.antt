-- ===== src/Negotiation/Agreed.antt =====
-- An offer that an agent issues passes its own check and that of the buyer.
use obolos.Prelude.{ℕ, ◌*◌, ◌≤◌, ◌≡◌, refl, String, true, false, List}
use obolos.Prelude.{ok, err, ltb, arith, length, string_eq, nat_eq, list_eq, ◌==◌}
use obolos.Prelude.{not_ltb, not_ltb}
use obolos.Negotiation.{A2aConfig, Proposal, OfferPayload, A2aOffer, Runtime}
use obolos.Negotiation.Schema.{is_proposal, is_offer_payload, validate_repos, instant_of}
use obolos.Negotiation.Schema.{text_date_eq}
use obolos.Negotiation.Config.{href_below, evidence_path, validate_config}
use obolos.Negotiation.Token.{
  sign, verify_offer, open_token, check_offer, violates, has_invalid_bounds, with_token, body_of,
}
use obolos.Negotiation.Seller.{
  validate_seller_offer, read_seller_token, check_seller_offer, differs, is_other_purchase,
  offer_eq,
}
use obolos.Negotiation.Signed.{
  IsFaithful, token_parts, body_chars, signature-IsSignature, signature-decode, payload_read,
}

-- Every fact that the check of a signed payload asks for.
pub record IsGood (runtime : Runtime) (now : ℕ) (config : A2aConfig) (p : OfferPayload)
    : Type 0 where
  pub payload : is_offer_payload p ≡ true
  pub repos : (rs : List String) × (validate_repos p.repos ≡ ok rs)
  pub bounds :
      has_invalid_bounds now false
        (instant_of p.expires_at)
        (instant_of p.issued_at)
        (instant_of p.mandate_expires_at)
      ≡ false
  pub pay_to : p.pay_to ≡ config.pay_to
  pub payer : (p.payer == config.pay_to) ≡ false
  pub resource :
      href_below runtime config.resource_base_url (evidence_path p.provider_id) ≡ ok p.resource_url
  pub amount : p.amount_atomic ≡ p.unit_price_atomic * length p.repos
  pub affordable : p.amount_atomic ≤ p.max_amount_atomic

open_token-sign :
    (runtime : Runtime) (config : A2aConfig) (p : OfferPayload)
    → IsFaithful runtime config.offer_secret p
    → is_offer_payload p ≡ true
    → length (sign runtime p config).offer_token ≤ 12000
    → open_token runtime config (sign runtime p config).offer_token ≡ ok p
unfolding open_token
open_token-sign runtime config p faithful valid short =
    let hmac = runtime.hmac config.offer_secret (body_of runtime p) in
    let same = (list_eq.same_iff hmac hmac).1 refl in
    rw
      (
        not_ltb (length (sign runtime p config).offer_token) 12000 short,
        token_parts runtime config p faithful,
        body_chars runtime config p faithful,
        signature-IsSignature runtime config p faithful,
        signature-decode runtime config p faithful,
        same,
      )
      (payload_read runtime config p faithful valid)

check_offer-IsGood :
    (runtime : Runtime) (now : ℕ) (config : A2aConfig) (p : OfferPayload)
    → IsGood runtime now config p
    → check_offer runtime now config false p ≡ ok tt
unfolding check_offer
check_offer-IsGood runtime now config p good =
    let kept : violates config p p.resource_url ≡ false = ground (
      arith,
      good.pay_to,
      good.payer,
      good.amount,
      good.affordable,
      string_eq.same_iff p.pay_to config.pay_to,
      string_eq.same_iff p.resource_url p.resource_url,
    ) in
    rw (good.repos.1, good.bounds, good.resource, kept) refl

-- A signed payload that is good is what the check of its token returns.
pub verify_offer-sign :
    (runtime : Runtime) (now : ℕ) (config : A2aConfig) (p : OfferPayload)
    → IsFaithful runtime config.offer_secret p
    → validate_config runtime config ≡ ok tt
    → IsGood runtime now config p
    → length (sign runtime p config).offer_token ≤ 12000
    → verify_offer runtime now config false (sign runtime p config).offer_token
      ≡ ok (sign runtime p config)
unfolding verify_offer
verify_offer-sign runtime now config p faithful configured good short =
    rw
      (
        configured,
        open_token-sign runtime config p faithful good.payload short,
        check_offer-IsGood runtime now config p good,
      )
      (unfold sign in refl)

-- What the buyer asks of the payload, beside the seller's own bounds.
pub record IsWanted (runtime : Runtime) (base pay_to : String) (p : Proposal) (o : OfferPayload)
    : Type 0 where
  pub valid : is_proposal p ≡ true
  pub request_id : o.request_id ≡ p.request_id
  pub payer : o.payer ≡ p.payer
  pub provider : o.provider_id ≡ p.provider_id
  pub repos : o.repos ≡ p.repos
  pub most : o.max_amount_atomic ≡ p.max_amount_atomic
  pub mandate : o.mandate_expires_at ≡ p.mandate_expires_at
  pub recipient : o.pay_to ≡ pay_to
  pub resource : href_below runtime base (evidence_path p.provider_id) ≡ ok o.resource_url

is_other_purchase-IsWanted :
    (runtime : Runtime) (base pay_to : String) (p : Proposal) (o : OfferPayload)
    → IsWanted runtime base pay_to p o
    → (o.payer == pay_to) ≡ false
    → is_other_purchase o p pay_to ≡ false
unfolding is_other_purchase
is_other_purchase-IsWanted runtime base pay_to p o w payer =
    rw
      (
        (string_eq.same_iff o.request_id p.request_id).1 w.request_id,
        (string_eq.same_iff o.payer p.payer).1 w.payer,
        (string_eq.same_iff o.provider_id p.provider_id).1 w.provider,
        (list_eq.same_iff o.repos p.repos).1 w.repos,
        (nat_eq.same_iff o.max_amount_atomic p.max_amount_atomic).1 w.most,
        (text_date_eq.same_iff o.mandate_expires_at p.mandate_expires_at).1 w.mandate,
        (string_eq.same_iff o.pay_to pay_to).1 w.recipient,
        payer,
      )
      refl

differs-IsWanted :
    (runtime : Runtime) (now : ℕ) (config : A2aConfig) (base pay_to : String) (p : Proposal)
    (o : OfferPayload)
    → IsWanted runtime base pay_to p o
    → IsGood runtime now config o
    → differs now o p o.resource_url ≡ false
unfolding differs has_invalid_bounds
differs-IsWanted runtime now config base pay_to p o w good = ground (
  arith,
  w.repos,
  w.most,
  w.mandate,
  good.bounds,
  good.amount,
  good.affordable,
  string_eq.same_iff o.resource_url o.resource_url,
)

read_seller_token-sign :
    (runtime : Runtime) (config : A2aConfig) (o : OfferPayload)
    → IsFaithful runtime config.offer_secret o
    → is_offer_payload o ≡ true
    → length (sign runtime o config).offer_token ≤ 12000
    → read_seller_token runtime (sign runtime o config).offer_token ≡ ok o
unfolding read_seller_token
read_seller_token-sign runtime config o faithful valid short =
    rw
      (
        not_ltb (length (sign runtime o config).offer_token) 12000 short,
        token_parts runtime config o faithful,
        signature-IsSignature runtime config o faithful,
      )
      (payload_read runtime config o faithful valid)

check_seller_offer-IsWanted :
    (runtime : Runtime) (now : ℕ) (config : A2aConfig) (base : String) (p : Proposal)
    (o : OfferPayload) (token : List ℕ)
    → IsGood runtime now config o
    → IsWanted runtime base config.pay_to p o
    → check_seller_offer runtime now (with_token runtime o token) o p base config.pay_to ≡ ok tt
unfolding check_seller_offer
check_seller_offer-IsWanted runtime now config base p o token good w =
    let same =
      (offer_eq.same_iff (with_token runtime o token) (with_token runtime o token)).1 refl in
    rw
      (
        good.repos.1,
        same,
        is_other_purchase-IsWanted runtime base config.pay_to p o w good.payer,
        w.resource,
        differs-IsWanted runtime now config base config.pay_to p o w good,
      )
      refl

-- A signed payload that is good and wanted is what the check of the buyer returns.
pub validate_seller_offer-sign :
    (runtime : Runtime) (now : ℕ) (config : A2aConfig) (base : String) (p : Proposal)
    (o : OfferPayload)
    → IsFaithful runtime config.offer_secret o
    → IsGood runtime now config o
    → IsWanted runtime base config.pay_to p o
    → length (sign runtime o config).offer_token ≤ 12000
    → validate_seller_offer runtime now (sign runtime o config) p base config.pay_to
      ≡ ok (sign runtime o config)
unfolding validate_seller_offer
validate_seller_offer-sign runtime now config base p o faithful good w short =
    rw (w.valid, read_seller_token-sign runtime config o faithful good.payload short)
      (unfold sign in
        rw
          (check_seller_offer-IsWanted runtime now config base p o
            (sign runtime o config).offer_token good w)
          refl)

-- A longer token is refused by both.
pub verify_offer-long :
    (runtime : Runtime) (now : ℕ) (config : A2aConfig) (token : List ℕ)
    → validate_config runtime config ≡ ok tt
    → ltb 12000 (length token) ≡ true
    → verify_offer runtime now config false token ≡ err "Invalid offer."
unfolding verify_offer open_token
verify_offer-long runtime now config token configured long = rw (configured, long) refl

pub validate_seller_offer-long :
    (runtime : Runtime) (now : ℕ) (value : A2aOffer) (p : Proposal) (base pay_to : String)
    → is_proposal p ≡ true
    → ltb 12000 (length value.offer_token) ≡ true
    → validate_seller_offer runtime now value p base pay_to ≡ err "Invalid seller offer."
unfolding validate_seller_offer read_seller_token
validate_seller_offer-long runtime now value p base pay_to valid long = rw (valid, long) refl
