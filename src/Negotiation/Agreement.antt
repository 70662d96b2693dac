-- ===== src/Negotiation/Agreement.antt =====
-- What a buyer knows of an offer that its check of the seller returned.
use obolos.Prelude.{ℕ, ◌+◌, ◌*◌, ◌≤◌, ◌<◌, ◌≡◌, subst, String, Bool, true, false, not}
use obolos.Prelude.{some, ok, arith, length, string_eq, list_eq, nat_eq, ◌==◌, ◌||◌}
use obolos.Prelude.{>>=-ok, throw_if, throw_if-ok, ok_injective}
use obolos.Negotiation.{Proposal, OfferPayload, A2aOffer, Runtime}
use obolos.Negotiation.Schema.{is_proposal, validate_repos, instant_of}
use obolos.Negotiation.Config.{href_below, evidence_path}
use obolos.Negotiation.Token.{with_token}
use obolos.Negotiation.Seller.{
  validate_seller_offer, read_seller_token, check_seller_offer, differs,
}
use obolos.Negotiation.Seller.{is_other_purchase, offer_eq}

-- The approved purchase, at a price within the maximum, still in force and short-lived.
pub record IsAgreed (now : ℕ) (p : Proposal) (pay_to : String) (o : OfferPayload) : Type 0 where
  pub request_id : o.request_id ≡ p.request_id
  pub payer : o.payer ≡ p.payer
  pub provider : o.provider_id ≡ p.provider_id
  pub repos : o.repos ≡ p.repos
  pub recipient : o.pay_to ≡ pay_to
  pub other_payer : (o.payer == pay_to) ≡ false
  pub amount : o.amount_atomic ≡ o.unit_price_atomic * length p.repos
  pub affordable : o.amount_atomic ≤ p.max_amount_atomic
  pub most : o.max_amount_atomic ≡ p.max_amount_atomic
  pub in_force : (t : ℕ) → instant_of o.expires_at ≡ some t → now < t
  pub short :
      (t i : ℕ)
      → instant_of o.expires_at ≡ some t
      → instant_of o.issued_at ≡ some i
      → (i < t) × (t ≤ i + 60000)

is_other_purchase-false :
    (o : OfferPayload) (p : Proposal) (pay_to : String)
    → is_other_purchase o p pay_to ≡ false
    → (o.request_id ≡ p.request_id)
      × (o.payer ≡ p.payer)
      × (o.provider_id ≡ p.provider_id)
      × (o.repos ≡ p.repos)
      × (o.max_amount_atomic ≡ p.max_amount_atomic)
      × (o.pay_to ≡ pay_to)
      × ((o.payer == pay_to) ≡ false)
unfolding is_other_purchase
is_other_purchase-false o p pay_to e =
    let same : (o.repos == p.repos) ≡ true = ground arith in
    (
      ground (arith, string_eq.same_iff o.request_id p.request_id),
      ground (arith, string_eq.same_iff o.payer p.payer),
      ground (arith, string_eq.same_iff o.provider_id p.provider_id),
      (list_eq.same_iff o.repos p.repos).0 same,
      ground arith,
      ground (arith, string_eq.same_iff o.pay_to pay_to),
      ground arith,
    )

differs-false :
    (now : ℕ) (o : OfferPayload) (p : Proposal) (resource : String)
    → differs now o p resource ≡ false
    → (o.amount_atomic ≡ o.unit_price_atomic * length p.repos)
      × (o.amount_atomic ≤ p.max_amount_atomic)
      × ((t : ℕ) → instant_of o.expires_at ≡ some t → now < t)
      × ((t i : ℕ)
          → instant_of o.expires_at ≡ some t
          → instant_of o.issued_at ≡ some i
          → (i < t) × (t ≤ i + 60000))
unfolding differs
differs-false now o p resource e = (
  ground arith,
  ground arith,
  λ t x. ground (arith, x),
  λ t i x y. (ground (arith, x, y), ground (arith, x, y)),
)

second_false : (a b : Bool) → (a || b) ≡ false → b ≡ false
second_false true b e = cc
second_false false b e = e

check_seller_offer-IsAgreed :
    (runtime : Runtime) (now : ℕ) (value : A2aOffer) (o : OfferPayload) (p : Proposal)
    (base pay_to : String) (u : Unit {0})
    → check_seller_offer runtime now value o p base pay_to ≡ ok u
    → IsAgreed now p pay_to o
unfolding check_seller_offer
check_seller_offer-IsAgreed runtime now value o p base pay_to u e =
    let (rs, named, e1) = >>=-ok (validate_repos o.repos) _ e in
    let (u1, same, e2) =
      >>=-ok
        (throw_if
          (not (value == with_token runtime o value.offer_token) || is_other_purchase o p pay_to) _)
        _ e1 in
    let (resource, link, e3) =
      >>=-ok (href_below runtime base (evidence_path p.provider_id)) _ e2 in
    let entries = throw_if-ok _ _ same in
    let (request_id, payer, provider, repos, most, recipient, other_payer) =
      is_other_purchase-false o p pay_to (second_false _ _ entries) in
    let (amount, affordable, in_force, short) =
      differs-false now o p resource (throw_if-ok _ _ e3) in
    record {
      request_id = request_id;
      payer = payer;
      provider = provider;
      repos = repos;
      recipient = recipient;
      other_payer = other_payer;
      amount = amount;
      affordable = affordable;
      most = most;
      in_force = in_force;
      short = short;
    }

-- An offer that the buyer's check returns is the purchase that was proposed: same request, payer,
-- provider, repositories and maximum, for the pinned account, at the unit price for each
-- repository and at most the maximum; where its dates are dates, it has not expired and lives at most a minute.
pub validate_seller_offer-IsAgreed :
    (runtime : Runtime) (now : ℕ) (value : A2aOffer) (p : Proposal) (base pay_to : String)
    (o : A2aOffer)
    → validate_seller_offer runtime now value p base pay_to ≡ ok o
    → IsAgreed now p pay_to o.payload
unfolding validate_seller_offer
validate_seller_offer-IsAgreed runtime now value p base pay_to o e =
    let (u, valid, e1) = >>=-ok (throw_if (not (is_proposal p)) _) _ e in
    let (payload, read, e2) = >>=-ok (read_seller_token runtime value.offer_token) _ e1 in
    let (u', checked, e3) =
      >>=-ok (check_seller_offer runtime now value payload p base pay_to) _ e2 in
    subst (λ (x : A2aOffer). IsAgreed now p pay_to x.payload) (ok_injective _ o e3)
      (check_seller_offer-IsAgreed runtime now value payload p base pay_to u' checked)
