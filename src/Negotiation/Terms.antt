-- ===== src/Negotiation/Terms.antt =====
-- The payload of an offer that was issued is good until it expires.
use Prim.Native.String
use Prim.Native.String.append
use Prim.Native.Char.{code}
use obolos.Prelude.{ℕ, ◌+◌, ◌≤◌, ◌<◌, ◌≡◌, refl, ap, ◌∙◌, String, true, false, ◌∷◌, ◌++◌}
use obolos.Prelude.{some, ok, arith, length, min, string_eq, nat_eq, list_eq}
use obolos.Prelude.{Result-cases, inl, inr, all, codes, prefix_of, zero}
use obolos.Prelude.{suc, is_hex, Option-cases, leb}
use obolos.Negotiation.{A2aConfig, Proposal, A2aOffer, Quote, Runtime, iso}
use obolos.Negotiation.Schema.{is_proposal, is_offer_payload, instant_of, is_identity}
use obolos.Negotiation.Schema.{
  is_identity_char, is_account, is_atomic, is_provider, is_repo_count, is_offset_datetime,
}
use obolos.Negotiation.Config.{href_below, evidence_path, validate_config, trusted_base}
use obolos.Negotiation.Token.{sign, has_invalid_bounds}
use obolos.Negotiation.Answer.{is_bad_quote, offer_payload, issue_offer, context_of}
use obolos.Negotiation.Issued.{IsIssued}
use obolos.Negotiation.Agreed.{IsGood}

prefix_chars :
    (n : ℕ) (s : String)
    → all is_hex (codes s) ≡ true
    → all is_identity_char (codes (prefix_of n s)) ≡ true
prefix_chars zero s h = refl
prefix_chars (suc n) String.[] h = refl
prefix_chars (suc n) (String.◌∷◌ c s) h = ground (arith, prefix_chars n s)

prefix_length : (n : ℕ) (s : String) → length (codes (prefix_of n s)) ≤ n
prefix_length zero s = omega arith
prefix_length (suc n) String.[] = omega arith
prefix_length (suc n) (String.◌∷◌ c s) = omega (arith, prefix_length n s)

codes-append : (s t : String) → codes (String.◌++◌ s t) ≡ codes s ++ codes t
codes-append String.[] t = ap codes (append.nil t)
codes-append (String.◌∷◌ c s) t =
    ap codes (append.cons c s t) ∙ ap (λ cs. code c ∷ cs) (codes-append s t)

context_of-IsIdentity :
    (runtime : Runtime) (p : Proposal)
    → all is_hex (codes (runtime.sha_identity p.payer p.request_id)) ≡ true
    → is_identity (context_of runtime p) ≡ true
unfolding is_identity
context_of-IsIdentity runtime p h =
    let sha = runtime.sha_identity p.payer p.request_id in
    rw (codes-append "commerce-" (prefix_of 40 sha))
      (ground (arith, prefix_chars 40 sha h, prefix_length 40 sha))

validate_config-account :
    (runtime : Runtime) (config : A2aConfig)
    → validate_config runtime config ≡ ok tt
    → is_account config.pay_to ≡ true
unfolding validate_config
validate_config-account runtime config h =
    elim (Result-cases (trusted_base runtime config.public_url)) [
      | inr (x, e) ↦ ground arith
      | inl (u, e) ↦ elim (Result-cases (trusted_base runtime config.resource_base_url)) [
        | inr (x, f) ↦ ground arith
        | inl (v, f) ↦ ground arith
      ]
    ]

-- The instants of an offer that was issued, and its payload.
pub record IsTimed (runtime : Runtime) (now : ℕ) (config : A2aConfig) (p : Proposal) (q : Quote)
    (o : A2aOffer) : Type 0 where
  pub resource : String
  pub mandate_at : ℕ
  pub quote_at : ℕ
  pub href : href_below runtime config.resource_base_url (evidence_path p.provider_id) ≡ ok resource
  pub mandate : instant_of p.mandate_expires_at ≡ some mandate_at
  pub quoted : instant_of q.expires_at ≡ some quote_at
  pub signed :
      o
      ≡ sign runtime
          (offer_payload runtime now config p q resource
            (iso (min (now + 60000) (min mandate_at quote_at))))
          config

pub issue_offer-IsTimed :
    (runtime : Runtime) (now : ℕ) (config : A2aConfig) (p : Proposal) (q : Quote) (o : A2aOffer)
    → issue_offer runtime now config p q ≡ ok o
    → IsTimed runtime now config p q o
unfolding issue_offer
issue_offer-IsTimed runtime now config p q o e =
    let link = href_below runtime config.resource_base_url (evidence_path p.provider_id) in
    elim (Result-cases link) [
      | inr (x, r) ↦ absurd (ground arith)
      | inl (resource, r) ↦ elim (Option-cases (instant_of p.mandate_expires_at)) [
        | inl no_mandate ↦ absurd (ground arith)
        | inr (mandate_at, m) ↦ elim (Option-cases (instant_of q.expires_at)) [
          | inl no_quote ↦ absurd (ground arith)
          | inr (quote_at, t) ↦ record {
            resource = resource;
            mandate_at = mandate_at;
            quote_at = quote_at;
            href = r;
            mandate = m;
            quoted = t;
            signed = ground arith;
          }
        ]
      ]
    ]

-- An instant whose offers the schemas take.
abbrev pub IsDatable : ℕ → Type 0
IsDatable now = now + 60000 ≤ 253402300799999

proposal_parts :
    (p : Proposal)
    → is_proposal p ≡ true
    → (is_account p.payer ≡ true)
      × (is_identity p.request_id ≡ true)
      × (is_provider p.provider_id ≡ true)
      × (is_repo_count p.repos ≡ true)
      × (is_atomic p.max_amount_atomic ≡ true)
      × (is_offset_datetime p.mandate_expires_at ≡ true)
unfolding is_proposal
proposal_parts p valid =
    (ground arith, ground arith, ground arith, ground arith, ground arith, ground arith)

atomic_quote :
    (now : ℕ) (config : A2aConfig) (p : Proposal) (q : Quote)
    → is_bad_quote now config p q ≡ false
    → (is_atomic q.unit_price_atomic ≡ true) × (is_atomic q.amount_atomic ≡ true)
unfolding is_bad_quote
atomic_quote now config p q good = (ground arith, ground arith)

issued-payload :
    (runtime : Runtime) (now : ℕ) (config : A2aConfig) (p : Proposal) (q : Quote)
    (resource : String) (expiry : ℕ)
    → is_proposal p ≡ true
    → is_bad_quote now config p q ≡ false
    → is_identity (context_of runtime p) ≡ true
    → is_account config.pay_to ≡ true
    → IsDatable now
    → expiry ≤ now + 60000
    → is_offer_payload (offer_payload runtime now config p q resource (iso expiry)) ≡ true
unfolding is_offer_payload
issued-payload runtime now config p q resource expiry valid good context account datable soon =
    let (payer, request, provider, count, most, mandate) = proposal_parts p valid in
    let (price, amount) = atomic_quote now config p q good in
    let issue : leb now 253402300799999 ≡ true = ground arith in
    let expires : leb expiry 253402300799999 ≡ true = ground arith in
    rw
      (
        context, request, payer, provider, count, price, amount, most, mandate, issue, expires,
        account,
      )
      refl

pub issued-IsGood :
    (runtime : Runtime) (now later : ℕ) (config : A2aConfig) (p : Proposal) (q : Quote)
    (o : A2aOffer)
    → IsIssued runtime now config p q o
    → (timed : IsTimed runtime now config p q o) → validate_config runtime config ≡ ok tt
    → all is_hex (codes (runtime.sha_identity p.payer p.request_id)) ≡ true
    → IsDatable now
    → now ≤ later
    → later < min (now + 60000) (min timed.mandate_at timed.quote_at)
    → IsGood runtime later config (
        offer_payload runtime now config p q timed.resource
          (iso (min (now + 60000) (min timed.mandate_at timed.quote_at))))
issued-IsGood runtime now later config p q o issued timed configured hex datable order ahead =
    record {
      payload =
          issued-payload runtime now config p q timed.resource _ issued.proposal issued.quote
            (context_of-IsIdentity runtime p hex)
            (validate_config-account runtime config configured) datable (omega arith);
      repos = issued.repos;
      bounds = unfold has_invalid_bounds in ground (arith, timed.mandate, order, ahead);
      pay_to = refl;
      payer = issued.payer;
      resource = timed.href;
      amount = unfold is_bad_quote in ground (arith, issued.quote);
      affordable = issued.affordable;
    }
