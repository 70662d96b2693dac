-- ===== src/Negotiation/Bounds.antt =====
-- What holds of an offer whose token was verified, or whose answer a buyer took.
use obolos.Prelude.{
  ℕ, ◌+◌, ◌*◌, ◌≤◌, ◌<◌, ◌≡◌, ◌≢◌, refl, sym, ap, ◌∙◌, subst, String, Bool, true, false, not, List,
}
use obolos.Prelude.{some, ok, arith, length, string_eq, nat_eq, list_eq}
use obolos.Prelude.{◌==◌, Option-cases, inl, inr, all, ltb, >>=-ok, throw_if-ok}
use obolos.Prelude.{
  if◌then◌else◌, throw_if, or_throw-ok, ok_injective, is_true_of_not, or_throw, ◌||◌,
}
use obolos.Negotiation.{A2aConfig, OfferPayload, A2aOffer, Runtime}
use obolos.Negotiation.Base64.{decode, is_base64url}
use obolos.Negotiation.Schema.{is_offer_payload, validate_repos, instant_of, text_date_eq}
use obolos.Negotiation.Config.{href_below, evidence_path, validate_config}
use obolos.Negotiation.Token.{
  verify_offer, open_token, check_offer, read_payload, split_dots, two_parts,
}
use obolos.Negotiation.Token.{with_token, is_signature, has_invalid_bounds, violates, is_beyond}
use obolos.Negotiation.Seller.{offer_eq}

-- The terms of an offer: it is of the schema, costs its price for each of one to three
-- repositories, at most the maximum, and lives at most a minute from an issue that is at most a
-- second ahead.
pub record IsBounded (now : ℕ) (p : OfferPayload) : Type 0 where
  pub schema : is_offer_payload p ≡ true
  pub some_repo : 1 ≤ length p.repos
  pub at_most_three : length p.repos ≤ 3
  pub amount : p.amount_atomic ≡ p.unit_price_atomic * length p.repos
  pub affordable : p.amount_atomic ≤ p.max_amount_atomic
  pub expiry : ℕ
  pub issue : ℕ
  pub expires : instant_of p.expires_at ≡ some expiry
  pub issues : instant_of p.issued_at ≡ some issue
  pub not_early : issue ≤ now + 1000
  pub ordered : issue < expiry
  pub short : expiry ≤ issue + 60000
  pub within_mandate : is_beyond expiry (instant_of p.mandate_expires_at) ≡ false

read_payload-ok :
    (runtime : Runtime) (body : List ℕ) (p : OfferPayload)
    → read_payload runtime body ≡ ok p
    → is_offer_payload p ≡ true
unfolding read_payload
read_payload-ok runtime body p e =
    let (x, read, e1) =
      >>=-ok
        (or_throw "Invalid JSON" (
          runtime.parse_json
            (if all is_base64url body then decode body else runtime.read_other body)))
        _ e in
    let (u, valid, e2) = >>=-ok (throw_if (not (is_offer_payload x)) _) _ e1 in
    subst (λ y. is_offer_payload y ≡ true) (ok_injective x p e2)
      (is_true_of_not _ (throw_if-ok _ _ valid))

-- What the seller's secret vouches for.
pub record IsSigned (runtime : Runtime) (secret : String) (token : List ℕ) (p : OfferPayload)
    : Type 0 where
  pub body : List ℕ
  pub signature : List ℕ
  pub parts : two_parts (split_dots token) ≡ some (body, signature)
  pub mac : runtime.hmac secret body ≡ decode signature
  pub read : read_payload runtime body ≡ ok p

open_token-IsSigned :
    (runtime : Runtime) (config : A2aConfig) (token : List ℕ) (p : OfferPayload)
    → open_token runtime config token ≡ ok p
    → IsSigned runtime config.offer_secret token p
unfolding open_token
open_token-IsSigned runtime config token p e =
    let (u, short, e1) = >>=-ok (throw_if (ltb 12000 (length token)) _) _ e in
    let (parts, split, e2) =
      >>=-ok (or_throw "Invalid offer." (two_parts (split_dots token))) _ e1 in
    let (body, signature) = parts in
    let (u', chars, e3) =
      >>=-ok (throw_if (not (all is_base64url body) || not (is_signature signature)) _) _ e2 in
    let (u'', mac, e4) =
      >>=-ok (throw_if (not (runtime.hmac config.offer_secret body == decode signature)) _) _ e3 in
    record {
      body = body;
      signature = signature;
      parts = or_throw-ok _ _ split;
      mac =
          (list_eq.same_iff (runtime.hmac config.offer_secret body) (decode signature)).0
            (is_true_of_not _ (throw_if-ok _ _ mac));
      read = e4;
    }

validate_repos-length :
    (rs back : List String) → validate_repos rs ≡ ok back → (1 ≤ length rs) × (length rs ≤ 3)
unfolding validate_repos
validate_repos-length rs back e = (ground arith, ground arith)

check_offer-ok :
    (runtime : Runtime) (now : ℕ) (config : A2aConfig) (late : Bool) (p : OfferPayload)
    (u : Unit {0})
    → check_offer runtime now config late p ≡ ok u
    → (rs : List String) × (resource : String) × (validate_repos p.repos ≡ ok rs)
      × (has_invalid_bounds now late
            (instant_of p.expires_at)
            (instant_of p.issued_at)
            (instant_of p.mandate_expires_at)
          ≡ false)
      × (href_below runtime config.resource_base_url (evidence_path p.provider_id) ≡ ok resource)
      × (violates config p resource ≡ false)
unfolding check_offer
check_offer-ok runtime now config late p u e =
    let (rs, valid, e1) = >>=-ok (validate_repos p.repos) _ e in
    let (u', bounds, e2) =
      >>=-ok
        (throw_if
          (has_invalid_bounds now late (instant_of p.expires_at) (instant_of p.issued_at)
            (instant_of p.mandate_expires_at))
          _)
        _ e1 in
    let (resource, link, e3) =
      >>=-ok (href_below runtime config.resource_base_url (evidence_path p.provider_id)) _ e2 in
    (rs, resource, valid, throw_if-ok _ _ bounds, link, throw_if-ok _ _ e3)

violates-false :
    (config : A2aConfig) (p : OfferPayload) (resource : String)
    → violates config p resource ≡ false
    → (p.pay_to ≡ config.pay_to)
      × ((p.payer == config.pay_to) ≡ false)
      × (p.resource_url ≡ resource)
      × (p.amount_atomic ≡ p.unit_price_atomic * length p.repos)
      × (p.amount_atomic ≤ p.max_amount_atomic)
violates-false config p resource e = (
  ground (arith, string_eq.same_iff p.pay_to config.pay_to),
  ground arith,
  ground (arith, string_eq.same_iff p.resource_url resource),
  ground arith,
  ground arith,
)

other_account : (a b : String) → (a == b) ≡ false → a ≢ b
other_account a b e same = ground (arith, string_eq.same_iff a b)

has_invalid_bounds-false :
    (now : ℕ) (late : Bool) (p : OfferPayload)
    → has_invalid_bounds now late
        (instant_of p.expires_at)
        (instant_of p.issued_at)
        (instant_of p.mandate_expires_at)
      ≡ false
    → (expiry issue : ℕ) × (instant_of p.expires_at ≡ some expiry)
      × (instant_of p.issued_at ≡ some issue)
      × (issue ≤ now + 1000)
      × (issue < expiry)
      × (expiry ≤ issue + 60000)
      × (is_beyond expiry (instant_of p.mandate_expires_at) ≡ false)
      × ((late ≡ false) → now < expiry)
unfolding has_invalid_bounds
has_invalid_bounds-false now late p e = elim (Option-cases (instant_of p.expires_at)) [
  | inl x ↦ absurd (ground arith)
  | inr (expiry, x) ↦ elim (Option-cases (instant_of p.issued_at)) [
    | inl i ↦ absurd (ground arith)
    | inr (issue, i) ↦ (
      expiry,
      issue,
      x,
      i,
      ground arith,
      ground arith,
      ground arith,
      ground arith,
      λ l. ground arith,
    )
  ]
]

pub record IsVerified (runtime : Runtime) (now : ℕ) (config : A2aConfig) (late : Bool)
    (token : List ℕ) (o : A2aOffer) : Type 0 where
  pub signed : IsSigned runtime config.offer_secret token o.payload
  pub bounded : IsBounded now o.payload
  pub in_force : late ≡ false → now < bounded.expiry
  pub recipient : o.payload.pay_to ≡ config.pay_to
  pub payer : o.payload.payer ≢ config.pay_to
  pub resource :
      href_below runtime config.resource_base_url (evidence_path o.payload.provider_id)
      ≡ ok o.payload.resource_url
  pub entries : o ≡ with_token runtime o.payload token

-- An offer that the check of a token returns was signed with the secret, is bounded, has not
-- expired unless that is allowed, pays the configured account for its exact resource, and is
-- payable by another account.
pub verify_offer-IsVerified :
    (runtime : Runtime) (now : ℕ) (config : A2aConfig) (late : Bool) (token : List ℕ) (o : A2aOffer)
    → verify_offer runtime now config late token ≡ ok o
    → IsVerified runtime now config late token o
unfolding verify_offer
verify_offer-IsVerified runtime now config late token o e =
    let (u, configured, e1) = >>=-ok (validate_config runtime config) _ e in
    let (p, opened, e2) = >>=-ok (open_token runtime config token) _ e1 in
    let (u', checked, e3) = >>=-ok (check_offer runtime now config late p) _ e2 in
    let same : with_token runtime p token ≡ o = ok_injective _ o e3 in
    subst (IsVerified runtime now config late token) same
      (verified p (open_token-IsSigned runtime config token p opened) u' checked)
  where
    verified :
        (p : OfferPayload)
        → IsSigned runtime config.offer_secret token p
        → (u : Unit {0}) → check_offer runtime now config late p ≡ ok u
        → IsVerified runtime now config late token (with_token runtime p token)
    verified p signed u checked =
        let (rs, resource, valid, bounds, link, kept) =
          check_offer-ok runtime now config late p u checked in
        let (expiry, issue, expires, issues, not_early, ordered, short, within, force) =
          has_invalid_bounds-false now late p bounds in
        let (recipient, payer, exact, amount, affordable) = violates-false config p resource kept in
        let (some_repo, at_most_three) = validate_repos-length p.repos rs valid in
        record {
          signed = signed;
          bounded = record {
            schema = read_payload-ok runtime signed.body p signed.read;
            some_repo = some_repo;
            at_most_three = at_most_three;
            amount = amount;
            affordable = affordable;
            expiry = expiry;
            issue = issue;
            expires = expires;
            issues = issues;
            not_early = not_early;
            ordered = ordered;
            short = short;
            within_mandate = within;
          };
          in_force = force;
          recipient = recipient;
          payer = other_account p.payer config.pay_to payer;
          resource = link ∙ ap ok (sym exact);
          entries = refl;
        }
