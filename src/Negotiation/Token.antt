-- ===== src/Negotiation/Token.antt =====
-- Signed offers of src/lib/hedera/a2a.ts: `sign` and `verifyA2AOffer`. The clock is read once.
use obolos.Prelude.{
  ℕ, ◌+◌, ◌-◌, ◌*◌, String, Bool, true, false, ◌&&◌, ◌||◌, not, List, [], ◌∷◌, ◌++◌,
}
use obolos.Prelude.{Option, none, some, leb, ltb, ◌==◌, nat_beq, nat_eq, list_eq, string_eq, all}
use obolos.Prelude.{length, joined, is_empty, Result, ok, ◌>>◌, ◌>>=◌, throw_if, or_throw}
use obolos.Prelude.{if◌then◌else◌}
use obolos.Contracts.{ParsedDate}
use obolos.Negotiation.{A2aConfig, OfferPayload, A2aOffer, Runtime}
use obolos.Negotiation.Base64.{encode, decode, is_base64url}
use obolos.Negotiation.Schema.{is_offer_payload, validate_repos, instant_of}
use obolos.Negotiation.Config.{validate_config, href_below, evidence_path}

-- The offer that a payload stands for, with its token.
abbrev pub with_token : Runtime → OfferPayload → List ℕ → A2aOffer
with_token runtime payload token = record {
  payload = payload;
  offer_id = runtime.sha_offer payload;
  payment_request_id = joined ("a2a:" ∷ runtime.sha_offer payload ∷ []);
  offer_token = token;
}

abbrev pub body_of : Runtime → OfferPayload → List ℕ
body_of runtime payload = encode (runtime.json payload)

abbrev pub signature_of : Runtime → A2aConfig → List ℕ → List ℕ
signature_of runtime config body = encode (runtime.hmac config.offer_secret body)

-- `sign`
unfoldable pub sign : Runtime → OfferPayload → A2aConfig → A2aOffer
unfolding encode
sign runtime payload config =
    let body = body_of runtime payload in
    with_token runtime payload (body ++ b'.' ∷ signature_of runtime config body)

abbrev put_first : ℕ → List (List ℕ) → List (List ℕ)
put_first c [] = (c ∷ []) ∷ []
put_first c (part ∷ parts) = (c ∷ part) ∷ parts

-- `split('.')`
unfoldable pub split_dots : List ℕ → List (List ℕ)
split_dots [] = [] ∷ []
split_dots (c ∷ cs) = if nat_beq c b'.' then [] ∷ split_dots cs else put_first c (split_dots cs)

-- The body and the signature of a token of exactly two parts that are not empty.
abbrev pub two_parts : List (List ℕ) → Option (List ℕ × List ℕ)
two_parts (body ∷ signature ∷ []) =
    if is_empty body || is_empty signature then none else some (body, signature)
two_parts _ = none

-- /^[-_A-Za-z0-9]{43}$/
abbrev pub is_signature : List ℕ → Bool
is_signature text = nat_beq (length text) 43 && all is_base64url text

-- `offerSchema.parse(JSON.parse(Buffer.from(body,'base64url').toString('utf8')))`
unfoldable pub read_payload : Runtime → List ℕ → Result String OfferPayload
unfolding decode is_offer_payload
read_payload runtime body = do
  payload ←
      or_throw "Invalid JSON" (
        runtime.parse_json (if all is_base64url body then decode body else runtime.read_other body))
  throw_if (not (is_offer_payload payload)) "Invalid payload"
  ok payload

-- `a>b` on parsed dates, which NaN fails.
abbrev pub is_after : ParsedDate → ℕ → Bool
is_after none t = false
is_after (some s) t = ltb t s

-- `s>d`, where a date text that is not a date gives NaN.
abbrev pub is_beyond : ℕ → ParsedDate → Bool
is_beyond s none = false
is_beyond s (some d) = ltb d s

abbrev passed : ParsedDate → ℕ → Bool
passed none now = false
passed (some t) now = leb t now

-- The bounds of a signed offer in time, by its parsed expiry, issue and mandate.
unfoldable pub has_invalid_bounds : ℕ → Bool → ParsedDate → ParsedDate → ParsedDate → Bool
has_invalid_bounds now allow_expired none issued mandate = true
has_invalid_bounds now allow_expired (some expiry) none mandate = true
has_invalid_bounds now allow_expired (some expiry) (some issued) mandate =
    ltb (now + 1000) issued
    || leb expiry issued
    || ltb 60000 (expiry - issued)
    || is_beyond expiry mandate
    || (not allow_expired && (leb expiry now || passed mandate now))

-- The payload of a token whose body was signed.
unfoldable pub open_token : Runtime → A2aConfig → List ℕ → Result String OfferPayload
unfolding split_dots decode
open_token runtime config token = do
  throw_if (ltb 12000 (length token)) "Invalid offer."
  (body, signature) ← or_throw "Invalid offer." (two_parts (split_dots token))
  throw_if (not (all is_base64url body) || not (is_signature signature)) "Invalid offer."
  throw_if (not (runtime.hmac config.offer_secret body == decode signature)) "Invalid signed offer."
  read_payload runtime body

abbrev pub violates : A2aConfig → OfferPayload → String → Bool
violates config p resource =
    not (p.pay_to == config.pay_to)
    || (p.payer == config.pay_to)
    || not (p.resource_url == resource)
    || not (nat_beq p.amount_atomic (p.unit_price_atomic * length p.repos))
    || ltb p.max_amount_atomic p.amount_atomic

-- The tests of a signed payload.
unfoldable pub check_offer :
    Runtime → ℕ → A2aConfig → Bool → OfferPayload → Result String (Unit {0})
unfolding validate_repos has_invalid_bounds
check_offer runtime now config allow_expired p = do
  repos ← validate_repos p.repos
  throw_if
      (has_invalid_bounds now allow_expired (instant_of p.expires_at) (instant_of p.issued_at)
        (instant_of p.mandate_expires_at))
      "Signed offer expired or has invalid bounds."
  resource ← href_below runtime config.resource_base_url (evidence_path p.provider_id)
  throw_if (violates config p resource) "Offer violates exact resource or mandate."

-- `verifyA2AOffer`
unfoldable pub verify_offer : Runtime → ℕ → A2aConfig → Bool → List ℕ → Result String A2aOffer
unfolding validate_config open_token check_offer
verify_offer runtime now config allow_expired token = do
  validate_config runtime config
  payload ← open_token runtime config token
  check_offer runtime now config allow_expired payload
  ok (with_token runtime payload token)
